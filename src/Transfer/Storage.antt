-- ===== src/Transfer/Storage.antt =====
-- What the work on one item asks of the servers and the file system: the operations of `S3Client`
-- (src/s3/client.rs) and of `tokio::fs`, as one interface, with the laws that their documentation
-- gives. `World` is what the servers and the file system hold.
use abixio_ui.Common.{Bool, Option, none, ◌≡◌, ◌≢◌}
use abixio_ui.Common.Text.{Text}
use abixio_ui.Common.Result.{Result, ok}

-- Where data may lie: in an object of a client's server, or in a file.
pub data Place (Client : Type 0) : Type 0 where
  remote : (client : Client) (bucket key : Text) → Place Client
  file : (path : Text) → Place Client

-- A call gives a result and the world that it leaves. `head_object` and `path_exists` are asked
-- whether they succeed.
pub record Storage (Client World Data : Type 0) : Type 0 where
  pub head_object : Client → Text → Text → World → Bool
  pub copy_object : Client → Text → Text → Text → Text → World → Result (Unit {0}) × World
  pub delete_object : Client → Text → Text → World → Result (Unit {0}) × World
  pub upload_file : Client → Text → Text → Text → Text → World → Result (Unit {0}) × World
  pub get_object : Client → Text → Text → World → Result Data
  pub path_exists : Text → World → Bool
  pub create_dir_all : Text → World → Result (Unit {0}) × World
  pub write : Text → Data → World → Result (Unit {0}) × World
  pub parent : Text → Option Text
  pub guess_content_type : Text → Text
  -- What lies at a place; the program has no such call.
  pub content : World → Place Client → Option Data

-- A call changes the place that it names and no other. A copy that succeeds leaves at its
-- destination what its source held, and a deletion that succeeds leaves nothing. Nothing is asked of
-- `head_object` and `path_exists`, which may fail for what is there.
pub record IsLawful {Client World Data : Type 0} (s : Storage Client World Data) : Type 0 where
  pub copy_object-elsewhere :
      (c : Client) (bucket key bucket' key' : Text) (w : World) (p : Place Client)
      → p ≢ remote c bucket' key'
      → s.content (s.copy_object c bucket key bucket' key' w).1 p ≡ s.content w p
  pub copy_object-ok :
      (c : Client) (bucket key bucket' key' : Text) (w : World)
      → (s.copy_object c bucket key bucket' key' w).0 ≡ ok tt
      → s.content (s.copy_object c bucket key bucket' key' w).1 (remote c bucket' key')
        ≡ s.content w (remote c bucket key)
  pub delete_object-elsewhere :
      (c : Client) (bucket key : Text) (w : World) (p : Place Client)
      → p ≢ remote c bucket key
      → s.content (s.delete_object c bucket key w).1 p ≡ s.content w p
  pub delete_object-ok :
      (c : Client) (bucket key : Text) (w : World)
      → (s.delete_object c bucket key w).0 ≡ ok tt
      → s.content (s.delete_object c bucket key w).1 (remote c bucket key) ≡ none
  pub upload_file-elsewhere :
      (c : Client) (bucket key path content_type : Text) (w : World) (p : Place Client)
      → p ≢ remote c bucket key
      → s.content (s.upload_file c bucket key path content_type w).1 p ≡ s.content w p
  pub create_dir_all-elsewhere :
      (path : Text) (w : World) (p : Place Client)
      → s.content (s.create_dir_all path w).1 p ≡ s.content w p
  pub write-elsewhere :
      (path : Text) (data_ : Data) (w : World) (p : Place Client)
      → p ≢ file path
      → s.content (s.write path data_ w).1 p ≡ s.content w p
