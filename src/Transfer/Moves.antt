-- ===== src/Transfer/Moves.antt =====
-- Copies and moves between buckets (`run_transfer_step` of src/app/transfer_ops.rs): within a server,
-- and to the server of another connection.
use abixio_ui.Common.{Bool, true, false, none, some, ◌≡◌, ◌≢◌, ◌⊎◌, inl, inr, refl, sym, ap, ◌∙◌}
use abixio_ui.Common.Text.{Text}
use abixio_ui.Common.Result.{Result, ok, err}
use abixio_ui.Sync.State.TransferEndpoint.{s3}
use abixio_ui.Transfer.Types.{
  OverwritePolicy, ask, overwrite_all, skip_all, TransferItem, TransferStepResult, copied, label,
}
use abixio_ui.Transfer.Storage.{Storage, IsLawful, Place, remote}
use abixio_ui.Transfer.Work.{run_transfer_step, write_remote, unless_there, delete_source, after}

abbrev pub between : Text → Text → Text → Text → Text → Text → TransferItem
between id bucket key id' bucket' key' = record {
  source = s3 id bucket key;
  destination = s3 id' bucket' key';
}

module _ {Client World Data : Type 0} (s : Storage Client World Data) (lawful : IsLawful s) where
  -- What was at the first place is at one of the two.
  abbrev pub Survives : Place Client → Place Client → World → World → Type 0
  Survives p q w v = (s.content v q ≡ s.content w p) ⊎ (s.content v p ≡ s.content w p)

  delete_source-Survives :
      (is_move : Bool) (c : Client) (b k b' k' : Text) (v w : World)
      → remote c b k ≢ remote c b' k'
      → s.content v (remote c b' k') ≡ s.content w (remote c b k)
      → s.content (delete_source s is_move c b k v).1 (remote c b' k') ≡ s.content w (remote c b k)
  delete_source-Survives false c b k b' k' v w apart h = h
  delete_source-Survives true c b k b' k' v w apart h =
      lawful.delete_object-elsewhere c b k v (remote c b' k') (λ e. apart (sym e)) ∙ h

  chain-Survives :
      (call : Result (Unit {0}) × World) (is_move : Bool) (c : Client) (b k b' k' : Text)
      (w : World)
      → remote c b k ≢ remote c b' k'
      → s.content call.1 (remote c b k) ≡ s.content w (remote c b k)
      → (call.0 ≡ ok tt → s.content call.1 (remote c b' k') ≡ s.content w (remote c b k))
      → Survives
          (remote c b k)
          (remote c b' k')
          w
          (after call (λ _ v. delete_source s is_move c b k v)).1
  chain-Survives (err e, v) is_move c b k b' k' w apart kept arrived = inr kept
  chain-Survives (ok t, v) is_move c b k b' k' w apart kept arrived =
      inl (delete_source-Survives is_move c b k b' k' v w apart (arrived refl))

  -- The result of a chain of calls does not change what they leave.
  after_ok-content :
      {A : Type 0} (call : Result A × World) (l : Text)
      → (after call (λ _ v. (ok (copied l), v))).1 ≡ call.1
  after_ok-content (ok a, v) l = refl
  after_ok-content (err e, v) l = refl

  unless_there-Survives :
      (there : Bool) (policy : OverwritePolicy) (item : TransferItem) (p q : Place Client)
      (w : World) (next : Result TransferStepResult × World)
      → Survives p q w next.1
      → Survives p q w (unless_there there policy item w next).1
  unless_there-Survives false policy item p q w next h = h
  unless_there-Survives true ask item p q w next h = inr refl
  unless_there-Survives true skip_all item p q w next h = inr refl
  unless_there-Survives true overwrite_all item p q w next h = h

  -- Within one server, whatever the policy and whichever calls fail: after a copy or a move to
  -- another place, what the source held is at the destination or still at the source.
  pub run_transfer_step-survives :
      (c : Client) (id b k id' b' k' : Text) (policy : OverwritePolicy) (is_move : Bool) (w : World)
      → remote c b k ≢ remote c b' k'
      → Survives
          (remote c b k)
          (remote c b' k')
          w
          (run_transfer_step s c (some c) (between id b k id' b' k') policy is_move w).1
  unfolding run_transfer_step
  run_transfer_step-survives c id b k id' b' k' policy is_move w apart =
      let call = s.copy_object c b k b' k' w in
      unless_there-Survives (s.head_object c b' k' w) policy (between id b k id' b' k')
        (remote c b k) (remote c b' k') w _
        (rw
          (after_ok-content (write_remote s c c is_move (s3 id b k) b' k' w)
            (label (between id b k id' b' k')))
          (chain-Survives call is_move c b k b' k' w apart
            (lawful.copy_object-elsewhere c b k b' k' w (remote c b k) apart)
            (lawful.copy_object-ok c b k b' k' w)))

  apart_clients : {c d : Client} {b k b' k' : Text} → c ≢ d → remote d b k ≢ remote c b' k'
  apart_clients h e = h cc

  -- What a move that leaves its server must show: the source is gone and the other server is as it was.
  abbrev pub Lost : Client → Client → Text → Text → World → World → Type 0
  Lost c d b k w v =
      (s.content v (remote c b k) ≡ none)
      × ((b' k' : Text) → s.content v (remote d b' k') ≡ s.content w (remote d b' k'))

  Untouched : Client → World → World → Type 0
  Untouched d w v = (b k : Text) → s.content v (remote d b k) ≡ s.content w (remote d b k)

  deleted-Lost :
      (call : Result (Unit {0}) × World) (c d : Client) (b k l₀ l : Text) (w v : World)
      → call ≡ s.delete_object c b k v
      → c ≢ d
      → Untouched d w v
      → (after call (λ _ u. (ok (copied l₀), u))).0 ≡ ok (copied l)
      → Lost c d b k w call.1
  unfolding Untouched
  deleted-Lost (err e, u) c d b k l₀ l w v is apart kept h = cc
  deleted-Lost (ok t, u) c d b k l₀ l w v is apart kept h = rw (ap (λ p. p.1) is) (
    lawful.delete_object-ok c b k v (sym (ap (λ p. p.0) is)),
    λ b' k'.
        lawful.delete_object-elsewhere c b k v (remote d b' k') (apart_clients apart) ∙ kept b' k',
  )

  moved-Lost :
      (call : Result (Unit {0}) × World) (c d : Client) (b k l₀ l : Text) (w : World)
      → call ≡ s.copy_object c b k b k w
      → c ≢ d
      → (after (after call (λ _ v. s.delete_object c b k v)) (λ _ u. (ok (copied l₀), u))).0
        ≡ ok (copied l)
      → Lost c d b k w (after call (λ _ v. s.delete_object c b k v)).1
  unfolding Untouched
  moved-Lost (err e, v) c d b k l₀ l w is apart h = cc
  moved-Lost (ok t, v) c d b k l₀ l w is apart h =
      deleted-Lost (s.delete_object c b k v) c d b k l₀ l w v refl apart
        (λ b' k'.
          rw (ap (λ p. p.1) is)
            (lawful.copy_object-elsewhere c b k b k w (remote d b' k') (apart_clients apart)))
        h

  unless_there-Lost :
      (there : Bool) (policy : OverwritePolicy) (item : TransferItem) (c d : Client) (b k l : Text)
      (w : World) (next : Result TransferStepResult × World)
      → (next.0 ≡ ok (copied l) → Lost c d b k w next.1)
      → (unless_there there policy item w next).0 ≡ ok (copied l)
      → Lost c d b k w (unless_there there policy item w next).1
  unless_there-Lost false policy item c d b k l w next g h = g h
  unless_there-Lost true ask item c d b k l w next g h = cc
  unless_there-Lost true skip_all item c d b k l w next g h = cc
  unless_there-Lost true overwrite_all item c d b k l w next g h = g h

  -- A move to the same bucket and key of another connection's server, where it reports that it
  -- copied, has deleted the source and written nothing to that server.
  pub run_transfer_step-Lost :
      (c d : Client) (id id' b k l : Text) (policy : OverwritePolicy) (w : World)
      → c ≢ d
      → (run_transfer_step s c (some d) (between id b k id' b k) policy true w).0 ≡ ok (copied l)
      → Lost c d b k w (run_transfer_step s c (some d) (between id b k id' b k) policy true w).1
  unfolding run_transfer_step
  run_transfer_step-Lost c d id id' b k l policy w apart =
      let item = between id b k id' b k in
      unless_there-Lost (s.head_object d b k w) policy item c d b k l w _ λ h.
        rw (after_ok-content (write_remote s c d true (s3 id b k) b k w) (label item))
          (moved-Lost (s.copy_object c b k b k w) c d b k (label item) l w refl apart h)
