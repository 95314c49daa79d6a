-- ===== src/Transfer/Safety.antt =====
-- What `run_transfer_step` (src/app/transfer_ops.rs) may change, over a lawful storage.
use abixio_ui.Common.{Bool, true, false, Option, none, some, ◌≡◌, ◌≢◌, refl, ◌∙◌, arith}
use abixio_ui.Common.Text.{Text}
use abixio_ui.Common.Result.{Result, ok, err}
use abixio_ui.Sync.State.{TransferEndpoint}
use abixio_ui.Sync.State.TransferEndpoint.{s3, local}
use abixio_ui.Transfer.Types.{
  OverwritePolicy, ask, overwrite_all, skip_all, TransferItem, TransferStepResult,
}
use abixio_ui.Transfer.Storage.{Storage, IsLawful, Place, remote, file}
use abixio_ui.Transfer.Work.{
  work_on, write_remote, write_local, unless_there, delete_source, create_parent, after,
}

-- Where an endpoint's data lies, for a client of its server.
abbrev pub place_of : {Client : Type 0} → Client → TransferEndpoint → Place Client
place_of c (s3 _ bucket key) = remote c bucket key
place_of c (local path) = file path

module _ {Client World Data : Type 0} (s : Storage Client World Data) where
  -- If the place is where the work on an item is to write, then the question whether anything is
  -- there is answered by yes.
  abbrev pub Noticed : TransferEndpoint → Option Client → World → Place Client → Type 0
  Noticed (local path) d w p = p ≡ file path → s.path_exists path w ≡ true
  Noticed (s3 _ bucket key) (some c) w p =
      p ≡ remote c bucket key → s.head_object c bucket key w ≡ true
  Noticed (s3 _ _ _) none w p = Unit

module _ {Client World Data : Type 0} (s : Storage Client World Data) (lawful : IsLawful s) where
  -- What both halves of a chain keep, the chain keeps.
  after-keeps :
      {A B : Type 0} (call : Result A × World) (next : A → World → Result B × World)
      (p : Place Client) (w : World)
      → s.content call.1 p ≡ s.content w p
      → ((a : A) (v : World)
          → s.content v p ≡ s.content w p
          → s.content (next a v).1 p ≡ s.content w p)
      → s.content (after call next).1 p ≡ s.content w p
  after-keeps (ok a, v) next p w h g = g a v h
  after-keeps (err e, v) next p w h g = h

  delete_source-keeps :
      (is_move : Bool) (c : Client) (bucket key : Text) (p : Place Client) (v w : World)
      → (is_move ≡ true → p ≢ remote c bucket key)
      → s.content v p ≡ s.content w p
      → s.content (delete_source s is_move c bucket key v).1 p ≡ s.content w p
  delete_source-keeps false c b k p v w g h = h
  delete_source-keeps true c b k p v w g h = lawful.delete_object-elsewhere c b k v p (g refl) ∙ h

  write_remote-keeps :
      (c : Client) (is_move : Bool) (source : TransferEndpoint) (bucket key : Text) (w : World)
      (p : Place Client)
      → p ≢ remote c bucket key
      → (is_move ≡ true → p ≢ place_of c source)
      → s.content (write_remote s c c is_move source bucket key w).1 p ≡ s.content w p
  write_remote-keeps c is_move (local path) bucket key w p h g =
      lawful.upload_file-elsewhere c bucket key path (s.guess_content_type path) w p h
  write_remote-keeps c is_move (s3 id b k) bucket key w p h g =
      after-keeps (s.copy_object c b k bucket key w) (λ _ v. delete_source s is_move c b k v) p w
        (lawful.copy_object-elsewhere c b k bucket key w p h)
        (λ _ v. delete_source-keeps is_move c b k p v w g)

  create_parent-keeps :
      (parent : Option Text) (p : Place Client) (v w : World)
      → s.content v p ≡ s.content w p
      → s.content (create_parent s parent v).1 p ≡ s.content w p
  create_parent-keeps none p v w h = h
  create_parent-keeps (some path) p v w h = lawful.create_dir_all-elsewhere path v p ∙ h

  write_local-keeps :
      (c : Client) (source : TransferEndpoint) (item : TransferItem) (path : Text) (w : World)
      (p : Place Client)
      → p ≢ file path
      → s.content (write_local s c source item path w).1 p ≡ s.content w p
  write_local-keeps c (local _) item path w p h = refl
  write_local-keeps c (s3 id b k) item path w p h =
      after-keeps (s.get_object c b k w, w) _ p w refl
        λ found v kept.
          after-keeps (create_parent s (s.parent path) v) _ p w
            (create_parent-keeps (s.parent path) p v w kept)
            λ _ v kept.
              after-keeps (s.write path found v) _ p w
                (lawful.write-elsewhere path found v p h ∙ kept) λ _ v kept. kept

  -- A place that the work leaves alone unless it is where the work writes: there the test for what is
  -- there stops the work.
  unless_there-keeps :
      (there : Bool) (policy : OverwritePolicy) (item : TransferItem) (w : World)
      (next : Result TransferStepResult × World) (p q : Place Client)
      → policy ≢ overwrite_all
      → (p ≡ q → there ≡ true)
      → (p ≢ q → s.content next.1 p ≡ s.content w p)
      → s.content (unless_there there policy item w next).1 p ≡ s.content w p
  unless_there-keeps false policy item w next p q h at g = g λ e. absurd (grind (arith, at e))
  unless_there-keeps true ask item w next p q h at g = refl
  unless_there-keeps true skip_all item w next p q h at g = refl
  unless_there-keeps true overwrite_all item w next p q h at g = absurd (h refl)

  pub work_on-keeps :
      (c : Client) (item : TransferItem) (policy : OverwritePolicy) (is_move : Bool)
      (destination : TransferEndpoint) (w : World) (p : Place Client)
      → policy ≢ overwrite_all
      → (is_move ≡ true → p ≢ place_of c item.source)
      → Noticed s destination (some c) w p
      → s.content (work_on s c (some c) item policy is_move destination w).1 p ≡ s.content w p
  work_on-keeps c item policy is_move (s3 _ bucket key) w p h moved noticed =
      unless_there-keeps (s.head_object c bucket key w) policy item w _ p (remote c bucket key) h
        noticed
        λ apart.
          after-keeps (write_remote s c c is_move item.source bucket key w) _ p w
            (write_remote-keeps c is_move item.source bucket key w p apart moved) λ _ v kept. kept
  work_on-keeps c item policy is_move (local path) w p h moved noticed =
      unless_there-keeps (s.path_exists path w) policy item w _ p (file path) h noticed
        (write_local-keeps c item.source item path w p)
