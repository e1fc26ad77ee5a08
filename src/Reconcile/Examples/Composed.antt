-- ===== src/Reconcile/Examples/Composed.antt =====
-- The theorem on a planned command and its observation, applied.
use frame_tv_art_manager.Samsung.Types.{Disposition, PowerState-discrete, ArtModeState-discrete}
use frame_tv_art_manager.Prelude.{
  trim_space, Text-discrete, ℕ_discrete, codes, none, some, ◌≡◌, refl,
}
use frame_tv_art_manager.Samsung.Adapter.{authorize_command}
use frame_tv_art_manager.Samsung.Adapter.Observe.{ObserveRequest}
use frame_tv_art_manager.Samsung.Adapter.Observing.{observe}
use frame_tv_art_manager.Samsung.Examples.{
  config, adapter, request, observe_answers, fingerprint, whole, deletion,
}
use frame_tv_art_manager.Reconcile.Types.{CommandIntent, CommandKind, intent_of}
use frame_tv_art_manager.Reconcile.Errors.{ok}
use frame_tv_art_manager.Reconcile.Execution.{samsung_command}
use frame_tv_art_manager.Reconcile.Capabilities.{required_capabilities}
use frame_tv_art_manager.Reconcile.Capabilities.Granted.{observe_for_lem}

abbrev planned : CommandIntent
planned = record (intent_of CommandKind.delete_owned) { content_id = codes "MY_1" }

abbrev asking : ObserveRequest
asking = record request { required = required_capabilities planned }

translated : samsung_command planned ≡ some (ok deletion)
unfolding samsung_command
translated = refl

-- The TV shows art, lists its artwork and answers what was asked.
is_ready :
    (observe fingerprint whole config asking observe_answers adapter).observation.disposition
    ≡ Disposition.eligible
unfolding observe required_capabilities trim_space Text-discrete ℕ_discrete PowerState-discrete
    ArtModeState-discrete
is_ready = refl

observe_for_lem_example :
    authorize_command config
      (observe fingerprint whole config asking observe_answers adapter).adapter
      none
      (observe fingerprint whole config asking observe_answers adapter).authorization
      deletion
    ≡ none
observe_for_lem_example =
    observe_for_lem fingerprint whole config asking observe_answers adapter planned deletion
      translated refl refl refl is_ready
