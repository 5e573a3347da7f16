-- ===== src/Internal/Configuration.antt =====
-- usecases/internal/deviceconfiguration.go
use eebus_go.Prelude.{
  ℕ, ◌==◌, if◌then◌else◌, any, is_empty, is_some, not, Bool, false, Option, none, some, List, [],
  ◌∷◌,
}
use eebus_go.Prelude.Assoc.{Assoc}
use eebus_go.Spine.{Name, KeyValueDescription, KeyValueValue, KeyValueData, Message}
use eebus_go.Errors.{Result, ok, err, message, ◌>>=◌}
use eebus_go.Features.Filter.{new_local}
use eebus_go.Features.DeviceConfiguration.{
  DeviceConfigurationFeature, get_key_value_description_fo_key_id,
}
use eebus_go.Internal.LocalEntity.{LocalEntity, new_feature}

-- `msg.RequestHeader == nil || msg.RequestHeader.MsgCounter == nil`
abbrev pub counter_of : Message → Option ℕ
counter_of msg = elim msg.request_header [ none ↦ none | some counter ↦ counter ]

-- The name of the one description of a key, if it has one.
abbrev pub key_name_of : DeviceConfigurationFeature → ℕ → Option Name
key_name_of f key_id = elim (get_key_value_description_fo_key_id (new_local f) key_id) [
  | ok description ↦ description.key_name
  | _ ↦ none
]

-- One turn of the loop: a key whose name is among those that need an approval.
abbrev pub needs_approval : DeviceConfigurationFeature → List Name → KeyValueData → Bool
needs_approval f configs_to_approve item = elim item.key_id [
  | none ↦ false
  | some key_id ↦ elim (key_name_of f key_id) [
    | none ↦ false
    | some name ↦ any (λ c. c == name) configs_to_approve
  ]
]

unfoldable pub configuration_write_requires_approval :
    Message → LocalEntity → List Name → Result Bool
configuration_write_requires_approval msg entity configs_to_approve = elim (counter_of msg) [
  | none ↦ err (message "invalid message")
  | some counter ↦ elim msg.key_value_list_data [
    | none ↦ err (message "invalid message")
    | some data_list ↦
        if is_empty data_list
        then err (message "no data")
        else if any (λ (i : KeyValueData). not (is_some i.key_id)) data_list
        then err (message "invalid message")
        else (do
          f ← new_feature entity.device_configuration
          ok (any (needs_approval f configs_to_approve) data_list))
  ]
]

-- ucapi.PendingDeviceConfiguration
pub record PendingDeviceConfiguration : Type 0 where
  pub description : KeyValueDescription
  pub key_name : Name
  pub value : Option KeyValueValue
  pub is_value_changeable : Option Bool

-- The entries of one message, for its keys with a named description.
unfoldable pub pending_configurations :
    DeviceConfigurationFeature → List KeyValueData → List PendingDeviceConfiguration
pending_configurations f [] = []
pending_configurations f (item ∷ items) =
    let rest = pending_configurations f items in
    elim item.key_id [
      | none ↦ rest
      | some key_id ↦ elim (get_key_value_description_fo_key_id (new_local f) key_id) [
        | ok description ↦ elim description.key_name [
          | none ↦ rest
          | some name ↦
              record {
                description = description;
                key_name = name;
                value = item.value;
                is_value_changeable = item.is_value_changeable;
              }
              ∷ rest
        ]
        | _ ↦ rest
      ]
    ]

-- The loop over the pending messages: a message without entries gets no key in the result.
unfoldable pub group_messages :
    DeviceConfigurationFeature → Assoc Message → Assoc (List PendingDeviceConfiguration)
unfolding pending_configurations
group_messages f [] = []
group_messages f ((counter, msg) ∷ pending) =
    let rest = group_messages f pending in
    elim msg.key_value_list_data [
      | none ↦ rest
      | some data_list ↦
          let entries = pending_configurations f data_list in
          if is_empty entries then rest else (counter, entries) ∷ rest
    ]

unfoldable pub group_pending_device_configurations :
    Assoc Message → LocalEntity → Assoc (List PendingDeviceConfiguration)
unfolding group_messages
group_pending_device_configurations pending entity =
    elim (new_feature entity.device_configuration) [ ok f ↦ group_messages f pending | _ ↦ [] ]
