-- ===== src/UseCase/Remote.antt =====
-- Remote devices and entities, as spine-go shows them to the use cases. `Device()` of a remote
-- entity is never nil.
use eebus_go.Prelude.{ℕ, ◌==◌, compare_lists, Bool, true, false, ◌&&◌, Option, none, some, List}
use eebus_go.Spine.{Name, PayloadData}

-- spineapi.DeviceRemoteInterface: `Ski` and `Address`
pub record RemoteDevice : Type 0 where
  pub ski : ℕ
  pub address : Option ℕ

-- model.EntityAddressType
pub record EntityAddress : Type 0 where
  pub device : Option ℕ
  pub entity : List ℕ

-- spineapi.FeatureRemoteInterface: `Role` and `Type`
pub record RemoteFeature : Type 0 where
  pub role : Name
  pub feature_type : Name

-- spineapi.EntityRemoteInterface
pub record RemoteEntity : Type 0 where
  pub address : Option EntityAddress
  pub entity_type : Name
  pub device : RemoteDevice
  pub features : List RemoteFeature

-- model.UseCaseSupportType
pub record UseCaseSupport : Type 0 where
  pub use_case_name : Option Name
  pub scenario_support : Option (List ℕ)

-- model.UseCaseInformationDataType, with `Address.Entity`
pub record UseCaseInformation : Type 0 where
  pub address : Option (List ℕ)
  pub actor : Option Name
  pub use_case_support : List UseCaseSupport

-- A device with `UseCases`, `Entities` and `Entity`, the entity at an address.
pub record DeviceView : Type 0 where
  pub device : RemoteDevice
  pub use_cases : List UseCaseInformation
  pub entities : List RemoteEntity
  pub entity_at : List ℕ → Option RemoteEntity

pub data EventType : Type 0 where
  device_change entity_change subscription_change binding_change data_change : EventType

pub data ChangeType : Type 0 where
  add update remove : ChangeType

-- spineapi.FeatureLocalInterface: `Type`, `Role`, and whether it is a feature of the entity of the
-- use case, which has one feature of each type and role at most
pub record LocalFeature : Type 0 where
  pub feature_type : Name
  pub role : Name
  pub of_entity : Bool

-- spineapi.EventPayload, as far as use cases read it
pub record EventPayload : Type 0 where
  pub ski : ℕ
  pub event_type : EventType
  pub change_type : ChangeType
  pub device : Option DeviceView
  pub entity : Option RemoteEntity
  pub content : PayloadData
  pub local_feature : Option LocalFeature
  pub function : Name
  pub cmd_classifier : Option Name

abbrev pub is_device_change : EventType → Bool
is_device_change device_change = true
is_device_change _ = false

abbrev pub is_binding_change : EventType → Bool
is_binding_change binding_change = true
is_binding_change _ = false

abbrev pub is_data_change : EventType → Bool
is_data_change data_change = true
is_data_change _ = false

abbrev pub is_entity_change : EventType → Bool
is_entity_change entity_change = true
is_entity_change _ = false

abbrev pub is_add : ChangeType → Bool
is_add add = true
is_add _ = false

abbrev pub is_update : ChangeType → Bool
is_update update = true
is_update _ = false

abbrev pub is_remove : ChangeType → Bool
is_remove remove = true
is_remove _ = false

-- An update of data, of which use cases only test the type of the data.
abbrev pub is_data_update : EventPayload → Bool
is_data_update payload = is_data_change payload.event_type && is_update payload.change_type

-- `reflect.DeepEqual` of two pointers to a number
abbrev pub same_pointee : Option ℕ → Option ℕ → Bool
same_pointee none none = true
same_pointee (some a) (some b) = a == b
same_pointee _ _ = false

-- Both addresses are there and agree in device and entity.
unfoldable pub same_address : Option EntityAddress → Option EntityAddress → Bool
same_address (some a) (some b) = same_pointee a.device b.device && compare_lists a.entity b.entity
same_address _ _ = false
