-- ===== src/Tests/Storage.antt =====
-- The theorems on the key/value backend, on containers, on the JSON form of values and on the server command, at
-- concrete inputs.
use frames.Base.{
  negsuc, pos, ◌≡◌, refl, true, false, List, [], ◌∷◌, ◌++◌, String, none, some, ok, arith, length,
  timed_out,
}
use frames.Value.{Value, nan, from_go_map}
use frames.Value.Json
use frames.Value.Json.{int_re}
use frames.Column.{ColImpl, DType}
use frames.Frame.{
  Frame, index_by_name, cols_to_pb, new_frame, check_equal_len, check_columns, check_indices,
}
use frames.Column.Edit.{append, append_slice, new_slice_column}
use frames.Column.Utils.{remove_column}
use frames.Schema.{Schema}
use frames.Cursor.{Item, output, new_cursor}
use frames.Wait.{Event, new_loop, delete_run, response, count}
use frames.Container.{
  Calls, ended, returns, table_deleted, delete_items, delete_table, as_int64_array,
}
use frames.Container.Blobs.{word_bytes, as_int64_array-bytes}
use frames.Container.Deleting.{delete_table-All}
use frames.Kv.{next, read_rows, add_row, add_fields, add_field, fill_nil, new_data}
use frames.Kv.Frames.{HasSize, next-HasSize}
use frames.Api.Setup.{Factory}
use frames.Framesd.{Env, Servers}
use frames.Api.Setup as Setup
use frames.Server as Start
use frames.Server.{Server, running_state}
use frames.Config.{Config}
use frames.Tests.Columns.{ages}
use frames.Tests.Transports.{factories, served, apis}

as_int64_array-bytes_example :
    as_int64_array (
      (0 ∷ 0 ∷ 0 ∷ 0 ∷ 0 ∷ 0 ∷ 0 ∷ 0 ∷ 0 ∷ 0 ∷ 0 ∷ 0 ∷ 0 ∷ 0 ∷ 0 ∷ 0 ∷ [])
      ++ (word_bytes (300 ∷ 7 ∷ []) ++ (1 ∷ [])))
    ≡ 300 ∷ 7 ∷ []
as_int64_array-bytes_example =
    as_int64_array-bytes (0 ∷ 0 ∷ 0 ∷ 0 ∷ 0 ∷ 0 ∷ 0 ∷ 0 ∷ 0 ∷ 0 ∷ 0 ∷ 0 ∷ 0 ∷ 0 ∷ 0 ∷ 0 ∷ [])
      (1 ∷ []) (300 ∷ 7 ∷ []) refl (omega arith) (omega arith, (omega arith, tt))

abbrev json : Json.Json
json = record {
  marshal = λ v. ok "-5";
  unmarshal = λ s. ok (Value.float64 nan);
  to_int = λ f. negsuc 4;
}

abbrev calls : Calls
calls = record {
  delete_object = λ old p. ok tt;
  sync_delete = λ p. ok tt;
  is_not_exists = λ e. false;
  query_escape = λ s. s;
}

abbrev item_called : String → Item
item_called name = ("__name", Value.string name) ∷ []

abbrev two_items : List Item
two_items = item_called "a" ∷ item_called "b" ∷ []

abbrev events : List Event
events = response none ∷ count 2 ∷ response (some timed_out) ∷ []

done_waiting : (delete_run new_loop events).finished ≡ true
unfolding delete_run new_loop
done_waiting = refl

delete_table-All_example :
    let rs = output two_items true none ∷ [] in
    (delete_items 3 calls "t" [] rs (new_cursor 1 false 0 0) ≡ ended ("t/a" ∷ "t/b" ∷ []) none)
    × (delete_table calls (ok tt) 3 "t" 1 rs events ≡ returns (table_deleted calls (ok tt)))
delete_table-All_example =
    delete_table-All calls "t" 1 (output two_items true none ∷ []) events
      (("a", refl), (("b", refl), tt)) (omega arith) (omega arith, refl) (λ old p. refl)
      done_waiting

abbrev stored : Item
stored = ("__name", Value.string "k") ∷ ("x", Value.int64 (pos 4)) ∷ []

abbrev key_column : ColImpl
key_column = record {
  msg = record (ages.msg) { name = "__name"; dtype = DType.string; ints = []; strings = "k" ∷ [] };
  times = none;
}

abbrev x_column : ColImpl
x_column = record { msg = record (ages.msg) { name = "x"; ints = pos 4 ∷ [] }; times = none }

abbrev read_frame : Frame
read_frame = record {
  labels = none;
  by_name = index_by_name (x_column ∷ []) [];
  columns = x_column ∷ [];
  indices = key_column ∷ [];
  msg = record {
    columns = cols_to_pb (x_column ∷ []);
    indices = cols_to_pb (key_column ∷ []);
    labels = [];
  };
  names = none;
}

read_one :
    next (pos 0) 1 none (stored ∷ item_called "b" ∷ []) ≡ ok (some read_frame, item_called "b" ∷ [])
unfolding next read_rows add_row add_fields add_field fill_nil new_data append append_slice
    new_slice_column remove_column new_frame check_equal_len check_columns check_indices from_go_map
read_one = refl

next-HasSize_example :
    (taken : List Item) × (stored ∷ item_called "b" ∷ [] ≡ taken ++ item_called "b" ∷ [])
    × HasSize (length taken) read_frame
next-HasSize_example =
    next-HasSize (pos 0) 1 none (stored ∷ item_called "b" ∷ []) (item_called "b" ∷ []) read_frame
      ((refl, (refl, (refl, tt))), ((refl, (refl, tt)), tt)) read_one

abbrev inferred : Schema
inferred = record {
  fields = record { name = "x"; type = "long"; nullable = true } ∷ [];
  key = "k";
  hashing_bucket_num = 0;
}

abbrev command : Env
command = record {
  read_file = λ s. ok s;
  unmarshal = λ s. ok served;
  normalize = λ s. s;
  factories = factories;
  listen = ok tt;
}

abbrev up : Server
up = record {
  base = record { error = none; state = running_state };
  starting = false;
  listening = 1;
}

abbrev servers : Servers
servers = record { http = up; http_backends = apis; grpc = up; grpc_backends = apis }
