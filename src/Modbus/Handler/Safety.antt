-- ===== src/Modbus/Handler/Safety.antt =====
-- When the translation of a request cannot panic (workers/modbus/handler.rs).
use mathlib.Core.Path.{subst}
use text.Mathlib.Text.{◌==◌ as str_eq}
use roboplc_middle.Prelude.{
  ℕ, ◌<◌, ◌%◌, ◌^◌, ◌≡◌, ◌≢◌, refl, Bool, true, false, String, List, [], ◌∷◌, Option, none, some,
  if◌then◌else◌, All, map,
}
use roboplc_middle.Prelude.Float.{Float}
use roboplc_middle.Prelude.Attempt.{
  done, panicked, lift, >>=-ne-panicked, lift-ne-panicked, done-ne-panicked, lift-eq-done,
  >>=-eq-done,
}
use roboplc_middle.Prelude.Json.{Json}
use roboplc_middle.Config.{SignalGroup, Device}
use roboplc_middle.Modbus.Address.{RegisterType, parse_register_address}
use roboplc_middle.Modbus.Client.{OperationResult, write_multiple}
use roboplc_middle.Modbus.Parsing.Bounds.{encode-ne-panicked}
use roboplc_middle.Modbus.Io.{Io}
use roboplc_middle.Modbus.Queue.{OperationQueue}
use roboplc_middle.Modbus.State.{Worker}
use roboplc_middle.Modbus.Handler.Control.{request}
use roboplc_middle.Modbus.Handler.Responses.{Told, Served, answered, lost, request-Served}
use roboplc_middle.Modbus.Handler.{
  Operation, read_signal_group, write_signal_group, get_status, resolve_signal_group,
  validate_writable, param, given_values, write_values, coil_op, nonzero, write_op, named_group,
  operation_to_modbus_op,
}

-- Every group has fewer than 65535 registers.
abbrev pub SmallGroups : List SignalGroup → Type 0
SmallGroups groups = All (λ g. g.register_count < 65535) groups

choice-small :
    (b : Bool) (x g : SignalGroup) (rest : Option SignalGroup)
    → x.register_count < 65535
    → (rest ≡ some g → g.register_count < 65535)
    → (if b then some x else rest) ≡ some g
    → g.register_count < 65535
choice-small true x g rest h k e =
    let same : x ≡ g = cc in subst (λ y. y.register_count < 65535) same h
choice-small false x g rest h k e = k e

resolve_signal_group-small :
    (name : String) (groups : List SignalGroup) (g : SignalGroup)
    → SmallGroups groups
    → resolve_signal_group name groups ≡ some g
    → g.register_count < 65535
unfolding resolve_signal_group
resolve_signal_group-small name [] g h e = absurd cc
resolve_signal_group-small name (x ∷ groups) g (h, hs) e =
    choice-small (str_eq x.name name) x g _ h (resolve_signal_group-small name groups g hs) e

module _ (fl : Float) (js : Json fl.F64) where
  open js use {Value, as_object, as_array, as_str}

  given_values-ne-panicked :
      (cast : ℕ → ℕ) (g : SignalGroup) (device : Device)
      (fields_data : Option (List (String × Value))) (raw : Option (List Value))
      → g.register_count < 65535
      → given_values fl js cast g device fields_data raw ≢ panicked
  given_values-ne-panicked cast g device (some fields_data) raw h =
      encode-ne-panicked fl js fields_data g.fields g.register_count device.byte_order h
  given_values-ne-panicked cast g device none (some vs) h = λ d. cc
  given_values-ne-panicked cast g device none none h = λ d. cc

  write_values-ne-panicked :
      (cast : ℕ → ℕ) (params : Value) (g : SignalGroup) (device : Device)
      → g.register_count < 65535
      → write_values fl js cast params g device ≢ panicked
  unfolding write_values
  write_values-ne-panicked cast params g device h =
      given_values-ne-panicked cast g device (param fl js params "data" as_object)
        (param fl js params "values" as_array) h

  write_op-ne-panicked :
      (r : RegisterType) (a : ℕ) (params : Value) (g : SignalGroup) (device : Device)
      → g.register_count < 65535
      → write_op fl js r a params g device ≢ panicked
  unfolding write_op
  write_op-ne-panicked RegisterType.coil a params g device h =
      >>=-ne-panicked (write_values fl js (λ n. n) params g device) _
        (write_values-ne-panicked (λ n. n) params g device h)
        (λ vs e. done-ne-panicked (coil_op a (map (nonzero fl js) vs)))
  write_op-ne-panicked RegisterType.holding a params g device h =
      >>=-ne-panicked (write_values fl js (λ n. n % 2 ^ 16) params g device) _
        (write_values-ne-panicked (λ n. n % 2 ^ 16) params g device h)
        (λ vs e. done-ne-panicked (write_multiple a vs))
  write_op-ne-panicked RegisterType.discrete a params g device h = λ d. cc
  write_op-ne-panicked RegisterType.input a params g device h = λ d. cc

  named_group-ne-panicked :
      (device : Device) (params : Value) → named_group fl js device params ≢ panicked
  unfolding named_group
  named_group-ne-panicked device params =
      >>=-ne-panicked (lift (param fl js params "group_name" as_str)) _ (lift-ne-panicked _)
        (λ name e.
          >>=-ne-panicked (lift (resolve_signal_group name device.signal_groups)) _
            (lift-ne-panicked _)
            (λ g f.
              >>=-ne-panicked (lift (parse_register_address g.register_address)) _
                (lift-ne-panicked _) (λ place d. done-ne-panicked (g, place.0, place.1))))

  named_group-small :
      (device : Device) (params : Value) (found : SignalGroup × RegisterType × ℕ)
      → SmallGroups device.signal_groups
      → named_group fl js device params ≡ done found
      → found.0.register_count < 65535
  unfolding named_group
  named_group-small device params found h e =
      let (name, _, e1) = >>=-eq-done (lift (param fl js params "group_name" as_str)) _ e in
      let (g, r, e2) = >>=-eq-done (lift (resolve_signal_group name device.signal_groups)) _ e1 in
      let (place, _, e3) = >>=-eq-done (lift (parse_register_address g.register_address)) _ e2 in
      let same : g ≡ found.0 = cc in
      subst (λ x. x.register_count < 65535) same
        (resolve_signal_group-small name device.signal_groups g h (lift-eq-done _ r))

  operation_to_modbus_op-ne-panicked :
      (device : Device) (operation : Operation) (params : Value)
      → SmallGroups device.signal_groups
      → operation_to_modbus_op fl js device operation params ≢ panicked
  unfolding operation_to_modbus_op
  operation_to_modbus_op-ne-panicked device get_status params h = λ d. cc
  operation_to_modbus_op-ne-panicked device read_signal_group params h =
      >>=-ne-panicked _ _ (named_group-ne-panicked device params) (λ p e. done-ne-panicked _)
  operation_to_modbus_op-ne-panicked device write_signal_group params h =
      >>=-ne-panicked _ _ (named_group-ne-panicked device params) (λ p e.
        >>=-ne-panicked _ _ (lift-ne-panicked (validate_writable p.1)) (λ u f.
          write_op-ne-panicked p.1 p.2 params p.0 device (named_group-small device params p h e)))

Served-answered :
    {Value : Type 0} {C : Type 0} (q q' : OperationQueue (Unit {0}))
    (a : Option (OperationResult Value))
    → ¬ C
    → Served C q q' a
    → (r : OperationResult Value) × (a ≡ some r) × Told r × (q' ≡ q)
Served-answered q _ _ n (answered r t) = (r, refl, t, refl)
Served-answered q _ _ n (lost c) = absurd (n c)

module _ (fl : Float) (js : Json fl.F64) (io : Io) where
  open js use {Value}

  -- If every group of the device has fewer than 65535 registers, every request is answered, by a
  -- success without an error or a failure with one, and gives its unit of capacity back.
  pub request-answers :
      (operation : Operation) (params : Value) (w : Worker io) (s : io.State)
      → SmallGroups w.device.signal_groups
      → let (w', s', events, a) = request fl js io operation params w s in
        (r : OperationResult Value) × (a ≡ some r)
        × Told r
        × (w'.operation_queue ≡ w.operation_queue)
  request-answers operation params w s h =
      Served-answered w.operation_queue _ _
        (operation_to_modbus_op-ne-panicked fl js w.device operation params h)
        (request-Served fl js io operation params w s)
