-- ===== src/Configuration/Controller/Effects.antt =====
-- What the last steps of `resume` of runtime/configuration_activation.py have done when they return.
use justflow.Common.{◌≡◌, String, true, Option, ◌==◌, ◌==◌}
use justflow.Common.Dict.{Dict}
use justflow.Configuration.Results.{Result, ok, err}
use justflow.Configuration.Store.{ActivationRow}
use justflow.Configuration.Control.{ControlState, Control, Prepared, ControlEnvironment}
use justflow.Configuration.Controller.Routing.{has_items, same_aliases}

module _ {W : Type 0} (F : ControlState W → Type 0) where
  abbrev pub Acted : {A : Type 0} → ControlState W × Result A → Type 0
  Acted (s, ok a) = F s
  Acted (s, err e) = Unit

  -- The fact F holds where the code returns.
  pub record Acts {A : Type 0} (x : Control W A) : Type 0 where
    pub run : (s : ControlState W) → Acted (x s)

  -- The fact F survives the code, whether it returns or raises.
  pub record Lasts {A : Type 0} (x : Control W A) : Type 0 where
    pub run : (s : ControlState W) → F s → F ((x s).0)

  -- A fact that the other processes, the clock and the rows of the activations leave as it is.
  pub record IsLasting (env : ControlEnvironment W) : Type 0 where
    pub turn : Lasts env.turn
    pub now : Lasts env.now
    pub rows : (s : ControlState W) (rows : Dict ActivationRow) → F s → F (record s { rows = rows })

  -- where the aliases are found as the plan wants them, the fact F holds
  abbrev pub Found : Prepared → ControlState W × Result (Dict String × Option String) → Type 0
  unfolding has_items
  Found p (s, ok (aliases, v)) = same_aliases aliases p.aliases ≡ true → F s
  Found p (s, err e) = Unit
