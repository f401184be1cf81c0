-- ===== src/Ephemeral/Samples.antt =====
-- Shares and histories for examples.

use bytevault.Prelude.{true, false, none, some, List, [], ◌∷◌, ◌==◌, ◌*◌, ◌+◌}
use bytevault.Ephemeral.{uploading, active, burned, Share, Db, Env}
use bytevault.Ephemeral.Upload.{Request}
use bytevault.Ephemeral.Calls.{Event, open_multipart, complete, download, cleanup}

abbrev pub env : Env
env = record {
  token = 7;
  hash_password = λ p. some (p + 1);
  check_password = λ h p. h == (p + 1);
  object_size = λ k. 100;
  new_upload_id = 9;
  key_of = λ t f. t * 1000 + f;
}

abbrev pub share : Share
share = record {
  id = 1;
  token = 7;
  storage_key = 7005;
  upload_id = some 9;
  filename = 5;
  file_size = 100;
  content_type = "image/png";
  status = active;
  max_downloads = 1;
  download_count = 0;
  ip_address = none;
  user_agent = none;
  password_hash = none;
  expires_at = 1000;
  is_live = false;
  created_at = 0;
  burned_at = none;
}

abbrev pub db : List Share → Db
db rows = record {
  settings = none;
  shares = rows;
  next_id = 2;
  progress = λ t. none;
  calls = [];
  egress = [];
}

abbrev pub now_served : Db
now_served = db (share ∷ [])

abbrev pub in_upload : Share
in_upload = record share { status = uploading }

abbrev pub burned_share : Share
burned_share = record share { status = burned; burned_at = some 10 }

abbrev pub picture : Share
picture = record share { max_downloads = 3 }

abbrev pub request : Request
request = record {
  filename = 5;
  size = 100;
  content_type = "image/png";
  password = none;
  ip = none;
  ua = none;
}

abbrev pub history : List Event
history =
    record { env = env; now = 10; faults = []; call = open_multipart request 2 true }
    ∷ record { env = env; now = 20; faults = []; call = complete 7 9 }
    ∷ record { env = env; now = 30; faults = []; call = download 7 none }
    ∷ record { env = env; now = 2000; faults = []; call = cleanup 2 }
    ∷ []

abbrev pub half_failed : Event
half_failed = record {
  env = env;
  now = 30;
  faults = false ∷ false ∷ false ∷ false ∷ true ∷ [];
  call = download 7 none;
}
