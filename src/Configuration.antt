-- ===== src/Configuration.antt =====
-- src/justflow/configuration and runtime/configuration_activation.py: the activation of configurations.
pub mod Results
pub mod Records
pub mod Activation
pub mod Store
pub mod Control
pub mod Controller
