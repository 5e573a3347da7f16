-- ===== src/Internal/LoadControl/Phases.antt =====
-- When the limits of the phases are reported.
use eebus_go.Prelude.{◌≡◌, none, some, List, [], ◌∷◌, ◌++◌, arith}
use eebus_go.Spine.{Name, LimitDescription, ParameterDescription}
use eebus_go.Errors.{ok, err, data_not_available}
use eebus_go.Features.Filter.{new_remote}
use eebus_go.Features.LoadControl.{
  LoadControlFeature, LoadControlCommon, get_limit_descriptions_for_filter,
}
use eebus_go.Features.ElectricalConnection.{
  ElectricalConnectionFeature, ElectricalConnectionCommon, phase_filter,
  get_parameter_descriptions_for_filter, phase_name_mapping,
}
use eebus_go.Internal.LoadControl.{
  RemoteData, match_descriptions, returns, phase_turn, phase_limits, load_control_limits,
}

returns_early :
    (lc : LoadControlCommon) (ec : ElectricalConnectionCommon) (descs : List LimitDescription)
    (before after : List Name) (phase : Name)
    → phase_turn lc ec descs phase ≡ returns
    → phase_limits lc ec descs (before ++ phase ∷ after) ≡ none
unfolding phase_limits
returns_early lc ec descs [] after phase h = ground (arith, h)
returns_early lc ec descs (b ∷ before) after phase h =
    ground (arith, returns_early lc ec descs before after phase h)

unmatched_turn :
    (lc : LoadControlCommon) (ec : ElectricalConnectionCommon) (descs : List LimitDescription)
    (phase : Name) (p : ParameterDescription) (ps : List ParameterDescription)
    → get_parameter_descriptions_for_filter ec (phase_filter phase) ≡ ok (p ∷ ps)
    → match_descriptions descs (p ∷ ps) ≡ none
    → phase_turn lc ec descs phase ≡ returns
unfolding phase_turn
unmatched_turn lc ec descs phase p ps found unmatched = ground (arith, found, unmatched)

-- If one phase has parameter descriptions, but no limit description of the filter has a
-- measurement of theirs, then no limit of any phase is returned: the data are not available, also
-- where the other phases have a limit.
pub load_control_limits_unmatched :
    (r : RemoteData) (filter : LimitDescription) (lc : LoadControlFeature)
    (ec : ElectricalConnectionFeature) (descs : List LimitDescription) (before after : List Name)
    (phase : Name) (p : ParameterDescription) (ps : List ParameterDescription)
    → r.load_control ≡ some lc
    → r.electrical_connection ≡ some ec
    → get_limit_descriptions_for_filter (new_remote lc) filter ≡ ok descs
    → phase_name_mapping ≡ before ++ phase ∷ after
    → get_parameter_descriptions_for_filter (new_remote ec) (phase_filter phase) ≡ ok (p ∷ ps)
    → match_descriptions descs (p ∷ ps) ≡ none
    → load_control_limits r filter ≡ err data_not_available
unfolding load_control_limits
load_control_limits_unmatched r filter lc ec descs before after phase p ps has_lc has_ec described
      at found unmatched =
    ground (arith, has_lc, has_ec, described, nothing descs unmatched)
  where
    nothing :
        (ds : List LimitDescription)
        → match_descriptions ds (p ∷ ps) ≡ none
        → phase_limits (new_remote lc) (new_remote ec) ds phase_name_mapping ≡ none
    nothing ds h = rw at (
        returns_early (new_remote lc) (new_remote ec) ds before after phase
          (unmatched_turn (new_remote lc) (new_remote ec) ds phase p ps found h))
