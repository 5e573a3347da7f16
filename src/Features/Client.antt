-- ===== src/Features/Client.antt =====
-- features/client/loadcontrol.go and deviceconfiguration.go: writing to a remote feature. Sending the command, and the
-- merge with the data that are known of the remote, are spine-go's.
use eebus_go.Prelude.{ℕ, if◌then◌else◌, is_empty, Bool, true, false, Option, none, some, List}
use eebus_go.Spine.{Name, LimitData, KeyValueData}
use eebus_go.Errors.{Result, ok, err, missing_data}
use eebus_go.Features.Server.{DeleteFilter}

-- model.CmdType with its limits; a partial write has filters, the delete filter first.
pub record LimitCommand : Type 0 where
  pub limits : List LimitData
  pub filters : Option (Option DeleteFilter)

-- The remote feature: whether it supports partial writes, and its `UpdateData`, which returns the
-- merged data or an error.
pub record RemoteLimits : Type 0 where
  pub write_partial : Bool
  pub update_data : List LimitData → Option DeleteFilter → Option (List LimitData)

-- Both the selectors and the elements have to be given.
abbrev pub delete_filter : Option (Option ℕ) → Option (List Name) → Option DeleteFilter
delete_filter (some selector) (some elements) =
    some (record { selector = selector; elements = some elements })
delete_filter _ _ = none

-- WriteLimitData: the command that is sent.
unfoldable pub write_limit_data :
    RemoteLimits → List LimitData → Option (Option ℕ) → Option (List Name) → Result LimitCommand
write_limit_data r limits selectors elements =
    if is_empty limits
    then err missing_data
    else if r.write_partial
    then ok (record { limits = limits; filters = some (delete_filter selectors elements) })
    else ok (record {
      limits = elim (r.update_data limits (delete_filter selectors elements)) [
        | none ↦ limits
        | some merged ↦ merged
      ];
      filters = none;
    })

-- model.CmdType with its key values, and whether the write is partial.
pub record KeyValueCommand : Type 0 where
  pub values : List KeyValueData
  pub partial : Bool

-- As `RemoteLimits`, for key values.
pub record RemoteKeyValues : Type 0 where
  pub write_partial : Bool
  pub update_data : List KeyValueData → Option (List KeyValueData)

-- WriteKeyValues: the command that is sent.
unfoldable pub write_key_values : RemoteKeyValues → List KeyValueData → Result KeyValueCommand
write_key_values r values =
    if is_empty values
    then err missing_data
    else if r.write_partial
    then ok (record { values = values; partial = true })
    else ok (record {
      values = elim (r.update_data values) [ none ↦ values | some merged ↦ merged ];
      partial = false;
    })
