-- ===== src/Features/DeviceConfiguration/Payload.antt =====
-- What the check of a device configuration update reports.
use eebus_go.Prelude.{any, is_some, ◌≡◌, Bool, true, ◌&&◌, List, [], ◌∷◌, ◌++◌, arith}
use eebus_go.Spine.{KeyValueDescription, KeyValueData, key_values}
use eebus_go.Errors.{ok}
use eebus_go.Features.DeviceConfiguration.{
  DeviceConfigurationCommon, key_matches, get_key_value_descriptions_for_filter,
  check_event_payload_data_for_filter,
}

any-append_value :
    (desc : KeyValueDescription) (before after : List KeyValueData) (item : KeyValueData)
    → is_some item.value ≡ true
    → any (key_matches desc) (before ++ item ∷ after) ≡ true
any-append_value desc [] after item h = ground arith
any-append_value desc (x ∷ before) after item h =
    ground (arith, any-append_value desc before after item h)

any-append_key :
    (before after : List KeyValueDescription) (desc : KeyValueDescription)
    (p : KeyValueDescription → Bool)
    → p desc ≡ true
    → any p (before ++ desc ∷ after) ≡ true
any-append_key [] after desc p h = ground arith
any-append_key (x ∷ before) after desc p h = ground (arith, any-append_key before after desc p h)

-- An update that holds a value for any key at all, at any place in the list, is reported as an
-- update of the keys that the filter describes, if a description that fits the filter has a key.
pub check_reports_any_value :
    (d : DeviceConfigurationCommon) (filter desc : KeyValueDescription)
    (fits fits' : List KeyValueDescription) (before after : List KeyValueData) (item : KeyValueData)
    → get_key_value_descriptions_for_filter d filter ≡ ok (fits ++ desc ∷ fits')
    → is_some desc.key_id ≡ true
    → is_some item.value ≡ true
    → check_event_payload_data_for_filter d (key_values (before ++ item ∷ after)) filter ≡ true
unfolding check_event_payload_data_for_filter
check_reports_any_value d filter desc fits fits' before after item found key value = ground (
  arith,
  found,
  any-append_key fits fits' desc
      (λ x. is_some x.key_id && any (key_matches x) (before ++ item ∷ after))
      (ground (arith, any-append_value desc before after item value)),
)
