-- ===== src/Mapper/Power.antt =====
-- Process functions of src/ocp/awesome_mapper2/functions-am3-process.go that update resources by
-- commands. They share one variable, powercap_enabled.
use mathlib.Core.List.{append_assoc}
use sailfish.Base.{
  Bool, List, Option, String, [], ap, false, if◌then◌else◌, map, negsuc, none, pos, refl, some,
  str_eq, sub_ℕ, suc, sym, true, ℤ, ◌&&◌, ◌++◌, ◌/◌, ◌∷◌, ◌≡◌,
}
use sailfish.Property.{Fields, Value, boolean, dict, end, field, list, null, number, prop, text}
use sailfish.Resource.Commands.{Command, update_redfish_resource_properties2}
use sailfish.Mapper.Convert.{get_health, setup_conv_funcs, zero2null}

-- AttributeUpdatedData, of which these functions read the value only.
pub data EventData (F : Type 0) : Type 0 where
  attribute_updated : Value → EventData F
  inst_power : F → EventData F
  power_consumption : ℤ → ℤ → ℤ → ℤ → ℤ → ℤ → ℤ → ℤ → EventData F
  power_supply : ℤ → F → ℤ → EventData F
  iom_capability : Bool → ℤ → Value → Value → EventData F
  file_read : String → EventData F
  other_data : EventData F

-- What processConfig gives am3AttributeUpdated and am3FileReadEvent: the key, and the conversion.
pub record Conversion : Type 0 where
  pub key : String
  pub conv : Option String

pub data Process : Type 0 where
  update_inst_power update_pwr_consumption_data update_pwr_supply_data : Process
  update_iom_config_data update_power_cap_flag update_power_limit : Process
  am3_attribute_updated am3_file_read_event : Conversion → Process

-- powercap_enabled afterwards, the commands sent, and whether the function returns an error.
pub record Step : Type 0 where
  pub powercap_enabled : Bool
  pub sent : List Command
  pub is_error : Bool

abbrev rejected : Bool → Step
rejected flag = record { powercap_enabled = flag; sent = []; is_error = true }

abbrev sends : Bool → String → Fields → Step
sends flag uuid fs = record {
  powercap_enabled = flag;
  sent = update_redfish_resource_properties2 uuid fs ∷ [];
  is_error = false;
}

-- n / 1000, which Go rounds towards 0.
abbrev pub thousandth : ℤ → ℤ
thousandth (pos n) = pos (n / 1000)
thousandth (negsuc n) = sub_ℕ 0 (suc n / 1000)

unfoldable pub is_enabled : Value → Bool
is_enabled (text s) = str_eq s "Enabled"
is_enabled v = false

-- The library's floats: the test against 0, printing with two decimals and reading that again, and
-- a float as a property; the date of seconds; and the parameters of the conversions.
pub record Floats (F : Type 0) : Type 0 where
  pub is_zero : F → Bool
  pub reparse : F → Option F
  pub as_value : F → Value
  pub date : ℤ → String
  pub equal_fold : String → String → Bool
  pub itoa : ℤ → String

module _ {F : Type 0} (lib : Floats F) (uuid : String) where
  -- round2DecPlaces
  unfoldable pub round2_dec_places : F → Bool → Value
  round2_dec_places value nil_flag =
      if nil_flag && lib.is_zero value
      then null
      else elim (lib.reparse value) [ none ↦ lib.as_value value | some val ↦ lib.as_value val ]

  -- val, ok = setupConvFuncs[helpFunc](logger)(data.Value); none is a panic.
  unfoldable pub convert : Option String → Value → Option Value
  unfolding setup_conv_funcs
  convert none v = some v
  convert (some name) v = elim (setup_conv_funcs lib.equal_fold lib.itoa name) [
    | none ↦ none
    | some f ↦ some (f v).0
  ]

  unfoldable pub send_converted : Bool → Conversion → Value → Option Step
  unfolding convert
  send_converted flag c v = elim (convert c.conv v) [
    | none ↦ none
    | some val ↦ some (sends flag uuid (field c.key val end))
  ]

  -- updatePowerLimit
  unfoldable pub update_limit : Bool → Value → Step
  update_limit true (number n) = sends true uuid (field "PowerLimit/LimitInWatts" (number n) end)
  update_limit true v = rejected true
  update_limit false v = sends false uuid (field "PowerLimit/LimitInWatts" (number (pos 0)) end)

  -- The process functions, on the data of an event; none is a panic.
  unfoldable pub run_process : Process → EventData F → Bool → Option Step
  unfolding round2_dec_places send_converted update_limit is_enabled get_health zero2null
  run_process update_inst_power (inst_power p) flag =
      some (sends flag uuid (field "Oem/Dell/InstPowerConsumption" (round2_dec_places p false) end))
  run_process update_pwr_consumption_data
        (power_consumption start watts peak peak_time min min_time headroom inst) flag =
      some (
        sends flag uuid (
          field "Oem/EnergyConsumptionStartTime" (number start) (
            field "Oem/EnergyConsumptionkWh" (number (thousandth watts)) (
              field "Oem/MaxPeakWatts" (number peak) (
                field "Oem/MaxPeakWattsTime" (text (lib.date peak_time)) (
                  field "Oem/MinPeakWatts" (number min) (
                    field "Oem/MinPeakWattsTime" (text (lib.date min_time)) (
                      field "Oem/PeakHeadroomWatts" (number headroom) (
                        field "PowerConsumedWatts" (number inst)
                          (field "PowerAvailableWatts" (number headroom) end))))))))))
  run_process update_pwr_supply_data (power_supply volts amps status) flag = some (
      sends flag uuid (
        field "LineInputVoltage" (zero2null volts) (
          field "Oem/Dell/InputCurrent" (round2_dec_places amps true) (
            field "Status/HealthRollup" (get_health status)
              (field "Status/Health" (get_health status) end)))))
  run_process update_iom_config_data (iom_capability internal count capabilities objects) flag =
      some (
        sends flag uuid (
          field "internal_mgmt_supported" (boolean internal) (
            field "IOMConfig_objects" objects (
              field "Capabilities" capabilities
                (field "Capabilities@odata.count" (number count) end)))))
  run_process update_power_cap_flag (attribute_updated v) flag =
      some (record { powercap_enabled = is_enabled v; sent = []; is_error = false })
  run_process update_power_limit (attribute_updated v) flag = some (update_limit flag v)
  run_process (am3_attribute_updated c) (attribute_updated v) flag = send_converted flag c v
  run_process (am3_file_read_event c) (file_read content) flag =
      send_converted flag c (text content)
  run_process p e flag = some (rejected flag)

  -- Events one after another: the commands of all of them and the variable at the end.
  unfoldable pub run_all : List (Process × EventData F) → Bool → Option (Bool × List Command)
  unfolding run_process
  run_all [] flag = some (flag, [])
  run_all ((p, e) ∷ rest) flag = elim (run_process p e flag) [
    | none ↦ none
    | some s ↦ elim (run_all rest s.powercap_enabled) [
      | none ↦ none
      | some r ↦ some (r.0, s.sent ++ r.1)
    ]
  ]

-- The two kinds of events that bear on the power limit.
pub data PowerEvent : Type 0 where
  cap limit : Value → PowerEvent

abbrev pub as_process : {F : Type 0} → PowerEvent → Process × EventData F
as_process (cap v) = (update_power_cap_flag, attribute_updated v)
as_process (limit v) = (update_power_limit, attribute_updated v)

-- What the last event on the cap said, if there was one.
abbrev pub latest : List PowerEvent → Bool → Bool
latest [] flag = flag
latest (cap v ∷ es) flag = latest es (is_enabled v)
latest (limit v ∷ es) flag = latest es flag

abbrev pub limit_command : String → ℤ → Command
limit_command uuid n =
    update_redfish_resource_properties2 uuid (field "PowerLimit/LimitInWatts" (number n) end)

module _ {F : Type 0} (lib : Floats F) (uuid : String) where
  update_limit-flag :
      (flag : Bool) (v : Value) → (update_limit lib uuid flag v).powercap_enabled ≡ flag
  unfolding update_limit
  update_limit-flag false v = refl
  update_limit-flag true (number n) = refl
  update_limit-flag true null = refl
  update_limit-flag true (boolean b) = refl
  update_limit-flag true (text s) = refl
  update_limit-flag true (list xs) = refl
  update_limit-flag true (dict fs) = refl
  update_limit-flag true (prop v m e) = refl

  -- After any events on the cap and the limit, whatever their values, a limit of n watts sends
  -- exactly one command more: with n if the last event on the cap said "Enabled", and with 0 if not.
  -- No event before it has made the program panic.
  pub run_all-limit :
      (es : List PowerEvent) (flag : Bool) (n : ℤ)
      → (cs : List Command) × (run_all lib uuid (map as_process es) flag
          ≡ some (latest es flag, cs))
        × (run_all lib uuid (map as_process (es ++ (limit (number n) ∷ []))) flag
            ≡ some (
              latest es flag,
              cs ++ (limit_command uuid (if latest es flag then n else pos 0) ∷ []),
            ))
  unfolding run_all run_process update_limit
  run_all-limit [] true n = ([], refl, refl)
  run_all-limit [] false n = ([], refl, refl)
  run_all-limit (cap v ∷ es) flag n =
      let (cs, run, more) = run_all-limit es (is_enabled v) n in
      (cs, rw (run_all, run_process, run) refl, rw (run_all, run_process, more) refl)
  run_all-limit (limit v ∷ es) flag n =
      let (cs, run, more) = run_all-limit es flag n in
      let here : Step = update_limit lib uuid flag v in
      let same : here.powercap_enabled ≡ flag = update_limit-flag flag v in
      (
        here.sent ++ cs,
        rw (run_all, run_process, same, run) refl,
        rw (run_all, run_process, same, more)
            (ap (λ l. some (latest es flag, l)) (sym (append_assoc here.sent cs _))),
      )
