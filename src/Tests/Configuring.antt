-- ===== src/Tests/Configuring.antt =====
-- Fields of a small configuration.
use uplink_service.Prelude.{true, false, some, [], ◌∷◌, ◌≡◌, refl, cut_at}
use uplink_service.Prelude.Int.{pos}
use uplink_service.Config.Fields.{
  Value, text, flag, null, struct, end, field, Scalars, done, panics, get_field, set_field, matches,
  is_lower_of, field_by_yaml, descend, resolve_path, assign_scalar, put,
}
use uplink_service.Config.Assigned.{ReadsBack, set_field-ReadsBack}

abbrev scalars : Scalars
scalars = record {
  parse_bool = λ s. some true;
  parse_int = λ s. some (pos 7);
  parse_float = λ s. some s;
}

abbrev config : Value
config = struct (
    field (record { name = "NTP"; tag = "ntp"; exported = true })
      (struct (
        field (record { name = "Enabled"; tag = "enabled"; exported = true }) (null (flag false))
          (field (record { name = "Server"; tag = "server"; exported = true }) (text "pool") end)))
      (field (record { name = "saveMu"; tag = ""; exported = false }) (struct end) end))

set_server_changes :
    set_field scalars config ("ntp" ∷ "server" ∷ []) "local"
    ≡ done (put config ("ntp" ∷ "server" ∷ []) (text "local"))
unfolding set_field resolve_path descend field_by_yaml matches cut_at assign_scalar
set_server_changes = refl

set_field-ReadsBack_example :
    ReadsBack scalars config
      ("ntp" ∷ "server" ∷ [])
      "local"
      (put config ("ntp" ∷ "server" ∷ []) (text "local"))
set_field-ReadsBack_example =
    set_field-ReadsBack scalars config (put config ("ntp" ∷ "server" ∷ []) (text "local"))
      ("ntp" ∷ "server" ∷ []) "local" set_server_changes

-- The mutex of the configuration has a path, and reading it panics.
mutex_panics : get_field config ("savemu" ∷ []) ≡ panics
unfolding get_field resolve_path descend field_by_yaml matches is_lower_of cut_at
mutex_panics = refl
