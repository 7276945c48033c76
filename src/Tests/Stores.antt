-- ===== src/Tests/Stores.antt =====
-- The theorems on schemas, the cursor, the stream of messages, CSV batches, requests, the
-- configuration and the registry, at concrete inputs.
use frames.Base.{
  ℕ, suc, pos, ◌≡◌, refl, true, false, List, [], ◌∷◌, ◌++◌, String, none, some, arith, Result, ok,
  length,
}
use frames.Value.{Value}
use frames.Schema.{Field, Schema, find_field, merge, long_type, string_type}
use frames.Schema.Laws.{Widens, merge-Widens}
use frames.Cursor.{Item, Response, not_found, output, items, all_items, new_cursor}
use frames.Cursor.Collect.{delivered, all_items-delivered}
use frames.Marshal.{Codec, Writer, encode, decode}
use frames.Marshal.RoundTrip.{framed, decode-encode}
use frames.Frame.{Frame, new_frame_from_proto}
use frames.Csv.{Row, Iterator, read_next_rows}
use frames.Csv.Batches.{IsBatch, read_next_rows-IsBatch}
use frames.Api.{ReadRequest, WriteRequest, Backend, write}
use frames.Config.{BackendConfig, Config}

abbrev field : String → String → Field
field name type = record { name = name; type = type; nullable = true }

abbrev schema : List Field → Schema
schema fs = record { fields = fs; key = "__name"; hashing_bucket_num = 0 }

merge-Widens_example :
    (g : Field) × (find_field "x" (field "x" string_type ∷ []) ≡ some g) × Widens long_type g.type
unfolding merge find_field
merge-Widens_example =
    merge-Widens (schema (field "x" long_type ∷ [])) (schema (field "x" string_type ∷ []))
      (schema (field "x" string_type ∷ [])) true (field "x" long_type) "x" refl refl

abbrev row : String → Item
row s = ("v", Value.string s) ∷ []

abbrev responses : List Response
responses =
    output (row "a" ∷ row "b" ∷ []) false none ∷ not_found ∷ output (row "c" ∷ []) true none ∷ []

all_items-delivered_example :
    all_items (suc (length (delivered responses))) responses (new_cursor 2 false 0 0)
    ≡ items (delivered responses)
all_items-delivered_example =
    all_items-delivered responses 2 (omega arith) (omega arith, (omega arith, (omega arith, refl)))

abbrev raw : Codec (List ℕ)
raw = record { marshal = λ m. ok m; unmarshal = λ bytes. ok bytes }

abbrev sink : Writer
sink = record { written = 9 ∷ []; room = none }

decode-encode_example :
    (encode raw sink (1 ∷ 2 ∷ 3 ∷ [])
      ≡ (ok tt, record { written = 9 ∷ framed (1 ∷ 2 ∷ 3 ∷ []); room = none }))
    × (decode raw (framed (1 ∷ 2 ∷ 3 ∷ []) ++ 7 ∷ []) ≡ (ok (1 ∷ 2 ∷ 3 ∷ []), 7 ∷ []))
decode-encode_example =
    decode-encode raw (1 ∷ 2 ∷ 3 ∷ []) sink (1 ∷ 2 ∷ 3 ∷ []) (7 ∷ []) refl refl refl (omega arith)

abbrev reader : Iterator
reader = record {
  reader = [];
  frame = none;
  error = none;
  column_names = "x" ∷ [];
  n_rows = 0;
  limit = pos 2;
  frame_limit = pos 5;
}

abbrev records : List (Result Row)
records = ok ("1" ∷ []) ∷ ok ("2" ∷ []) ∷ ok ("3" ∷ []) ∷ []

read_next_rows-IsBatch_example : IsBatch 0 reader (read_next_rows records 0 reader)
read_next_rows-IsBatch_example = read_next_rows-IsBatch records 0 reader

abbrev request : ReadRequest
request = record {
  session = none;
  backend = "kv";
  query = "select x from t where x > 1";
  table = "";
  columns = none;
  filter = "";
  group_by = "";
}

abbrev no_frame : Frame
no_frame = new_frame_from_proto (record { columns = []; indices = []; labels = [] })

abbrev accepting : Backend
accepting = record {
  read = λ r. ok ([], none);
  write = λ r. ok (record { add = λ sent f. ok tt; wait = λ sent. ok tt });
  create = λ r. ok tt;
  delete = λ r. ok tt;
  exec = λ r. ok tt;
}

abbrev write_request : WriteRequest
write_request = record {
  session = none;
  backend = "kv";
  table = "t";
  immediate_data = some no_frame;
  expression = "";
  have_more = true;
}

abbrev pub backend : String → BackendConfig
backend name = record { type = "csv"; name = name; workers = pos 0; root_dir = "/tmp" }

abbrev pub config : List BackendConfig → Config
config bs = record {
  default_limit = pos 0;
  default_timeout = pos 0;
  web_api_endpoint = "";
  container = "";
  username = "";
  password = "";
  workers = pos 0;
  backends = bs;
}

abbrev same : String → String
same s = s
