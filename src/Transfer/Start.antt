-- ===== src/Transfer/Start.antt =====
-- What a modal that is opened and started as it stands does (src/app/handlers/transfer.rs).
use abixio_ui.Common.{
  true, false, some, List, [], ◌∷◌, ◌≡◌, ◌≢◌, refl, arith, Bool-cases, inl, inr, if◌then◌else◌,
  ◌==◌, is_empty,
}
use abixio_ui.Common.Text.{Text, text_eq}
use abixio_ui.Common.Result.{Result}
use abixio_ui.Sync.State.{BucketInfo}
use abixio_ui.Transfer.Types.{
  Connection, App, prepared, current_connection, current_connection_id, current_selected_object,
}
use abixio_ui.Transfer.Modal.{handle_open_copy_object, handle_transfer_destination_buckets_loaded}
use abixio_ui.Transfer.Starting.{
  handle_start_transfer, transfer_can_start, transfer_points_to_same_object,
}
use abixio_ui.Transfer.Moves.{between}

text-eq : (a : Text) → (a == a) ≡ true
text-eq a = ground arith

not_empty : (t : Text) → t ≢ [] → is_empty t ≡ false
not_empty [] h = absurd (h refl)
not_empty (c ∷ t) h = refl

module _ {Client : Type 0} (open_client : Connection → Result Client) where
  -- The copy modal of the selected object, once its buckets arrived or failed to.
  abbrev pub opened_for : Result (List BucketInfo) → App Client → App Client
  opened_for result app =
      handle_transfer_destination_buckets_loaded result (handle_open_copy_object open_client app).0

  -- StartTransfer on the copy modal of an object as it was opened, after its buckets arrived or failed
  -- to: on the current connection nothing is started, since the object would be copied onto itself;
  -- where a saved connection is the active one, the item that copies the object to its own bucket and
  -- key under the name of that connection is prepared.
  pub handle_start_transfer-opened :
      (app : App Client) (b k : Text) (result : Result (List BucketInfo))
      → current_selected_object app ≡ some (b, k)
      → b ≢ []
      → k ≢ []
      → (handle_start_transfer (opened_for result app)).1 ≡ (
          if current_connection_id app == current_connection
          then []
          else prepared (between current_connection b k (current_connection_id app) b k ∷ []) ∷ [])
  unfolding handle_start_transfer transfer_can_start transfer_points_to_same_object
      handle_transfer_destination_buckets_loaded handle_open_copy_object
  handle_start_transfer-opened app b k result selected has_bucket has_key =
      elim (Bool-cases (current_connection_id app == current_connection)) [
        | inl e ↦
            simp (selected, e, text-eq b, text-eq k, not_empty b has_bucket, not_empty k has_key)
              refl
        | inr e ↦ simp (selected, e, not_empty b has_bucket, not_empty k has_key) refl
      ]
