-- ===== src/Jxx/SocketTests.antt =====
-- Sockets, keys of the registry and the program's lookup on the toy engine, and the theorems at
-- concrete data.
use chakra_jxx.Base.{
  true, ◌⊎◌, if◌then◌else◌, Outcome, returned, ℕ, String, ◌≡◌, refl, false, List, [], ◌∷◌, pos,
}
use chakra_jxx.Js.Jsrt.{JsValueRef}
use chakra_jxx.Js.Value.{base_value}
use chakra_jxx.Js.Mask
use chakra_jxx.Jxx.FileSystem.{FileSystem}
use chakra_jxx.Jxx.SearchPath
use chakra_jxx.Jxx.Main
use chakra_jxx.Jxx.Main.Client.{on_client, run_on_data}
use chakra_jxx.Jxx.Main.Serving.{Serves, served-IsCounted}
use chakra_jxx.Jxx.Main.Lookup.{here_and_modules, resolve-here_and_modules}
use chakra_jxx.Jxx.Toy.{disk}
use chakra_jxx.Jxx.Registry.Keys.{RegCalls, reg_create_key}
use chakra_jxx.Js.Toy.{doubles, Engine, engine, toy, toy-Counts}
use chakra_jxx.Jxx.Class.{JxxClass, jxx_class, no_parents}
use chakra_jxx.Jxx.Tcp.Acceptors.{complete_accept}
use chakra_jxx.Jxx.Tcp.Accepting.{OneMore, complete_accept-OneMore}
use chakra_jxx.Jxx.Tcp.{Asio, Net, reading_on}
use chakra_jxx.Jxx.Tcp.Sockets.{async_read_ex, complete}
use chakra_jxx.Jxx.Tcp.Handles.{IsCounted, held}
use chakra_jxx.Jxx.Tcp.Balance.{Keeps}
use chakra_jxx.Jxx.Tcp.Steps.{here, next, reads_on, ends, sockets-IsCounted}

-- The value 18 stands for the socket 7.
abbrev net : Net Engine String (Unit {0})
net = record {
  host = record {
    engine = record engine { external = λ v. 7 };
    objects = record { ref_count = λ o. 1; deleted = λ o. false; slots = [] };
    members = λ p. record {
      handle = 50;
      search_path = [];
      zone_0 = 101;
      json_parse_ = 19;
      json_stringify_ = 19;
      strings = [];
      protos = [];
      symbols = [];
      propids = [];
    };
  };
  sockets = tt;
  pending = [];
  accepts = [];
}

abbrev socket_class : ℕ → JxxClass
socket_class o = jxx_class 2 [] [] no_parents

abbrev idle :
    JsValueRef → List JsValueRef → Net Engine String (Unit {0}) → Net Engine String (Unit {0})
idle f args s = s

abbrev counts : Engine → JsValueRef → ℕ
counts e v = e.refs v

toy-Keeps : Keeps toy counts
toy-Keeps = record {
  keeps_property_id = λ e name v. refl;
  keeps_get_property = λ e object pid v. refl;
  keeps_int = λ e i v. refl;
  keeps_bool = λ e b v. refl;
  keeps_array_buffer = λ e size v. refl;
}

abbrev read_once : Net Engine String (Unit {0})
read_once = (async_read_ex toy socket_class 2 18 15 net).1

read_waits : read_once.pending ≡ reading_on 18 23 (record { data_ = 1000; size = 16 }) 15 ∷ []
unfolding async_read_ex base_value Mask.bit
read_waits = refl

-- A read is posted, and ends with 3 bytes.
sockets-IsCounted_example :
    IsCounted toy counts
      (λ v. 0)
      (complete toy socket_class 2 idle
        (reading_on 18 23 (record { data_ = 1000; size = 16 }) 15)
        (pos 0)
        3
        (record read_once { pending = [] })).1
unfolding held
sockets-IsCounted_example =
    sockets-IsCounted toy counts toy-Counts toy-Keeps socket_class 2 idle (λ f args others s c. c)
      (λ v. 0) (λ v real. refl)
      (next (next here (reads_on 18 15 net)) (
        ends [] [] (reading_on 18 23 (record { data_ = 1000; size = 16 }) 15) (pos 0) 3 read_once
          read_waits))

abbrev quiet_asio : Asio (Unit {0})
quiet_asio = record {
  is_open = λ t object. true;
  adopt = λ object t. t;
  open_socket = λ t object version. (0, t);
  listen = λ object t. (returned tt, t);
  resolve = λ host port t. (returned 80, t);
  open_acceptor = λ object endpoint t. (returned tt, t);
  reuse_address = λ object t. (returned tt, t);
  bind = λ object endpoint t. (returned tt, t);
}

-- The acceptor 18 stands for the object 7, and its accept ends with a client at 9.
complete_accept-OneMore_example :
    let s' =
      (complete_accept toy quiet_asio socket_class 2 idle
        (record { acceptor = 18; object = 7 })
        9
        (pos 0)
        net).1 in
    OneMore [] 18 s' × (true ≡ true ⊎ (s'.accepts ≡ []))
complete_accept-OneMore_example =
    complete_accept-OneMore toy quiet_asio socket_class 2 idle
      (record { acceptor = 18; object = 7 }) 9 (pos 0) net (λ f args t. refl)

toy-Serves : Serves toy counts
toy-Serves = record {
  serves_buffer = λ e bytes v. refl;
  serves_function = λ e name callee data' v. refl;
  serves_set_property = λ e object pid value v. refl;
}

abbrev connected : Net Engine String (Unit {0})
connected = (on_client toy socket_class 2 70 18 net).1

client_waits : connected.pending ≡ reading_on 18 23 (record { data_ = 1000; size = 16 }) 15 ∷ []
unfolding on_client base_value Mask.bit
client_waits = refl

-- The first read of a client ends with 3 bytes.
served-IsCounted_example :
    IsCounted toy counts
      (λ v. 0)
      (complete toy socket_class 2
        (run_on_data toy socket_class 2 (79 ∷ 75 ∷ []))
        (reading_on 18 23 (record { data_ = 1000; size = 16 }) 15)
        (pos 0)
        3
        (record connected { pending = [] })).1
unfolding held
served-IsCounted_example =
    served-IsCounted toy counts toy-Counts toy-Keeps socket_class 2 (79 ∷ 75 ∷ []) toy-Serves
      (λ v. 0) 70 18 net _ (λ v real. refl)
      (next here (
        ends [] [] (reading_on 18 23 (record { data_ = 1000; size = 16 }) 15) (pos 0) 3 connected
          client_waits))

-- A registry that remembers the key that was closed last.
abbrev windows : RegCalls ℕ
windows = record { reg_create_key_a = λ r h path. (0, 77, r); reg_close_key = λ r h. (0, h) }

abbrev created : Outcome JsValueRef × (Engine × ℕ)
created = reg_create_key toy doubles windows 15 16 (engine, 0)

key_made : created.0 ≡ returned 15
unfolding reg_create_key Mask.bit
key_made = refl

-- The script of the toy disk, from its own directory.
abbrev library : FileSystem String
library = record disk { current_path = "/lib"; is_relative = λ p. true }

resolve-here_and_modules_example :
    let (found, path) = Main.resolve library "a.js" "" in
    let (found', path') = SearchPath.resolve library (here_and_modules library) "a.js" "" in
    (found ≡ found') × ((if found then path else "") ≡ (if found' then path' else ""))
resolve-here_and_modules_example = resolve-here_and_modules library "a.js" "" (λ p. refl) refl
