-- ===== src/Utils/Url.antt =====
-- `KNetUrl` of include/utils/knet_url.hpp, with the casts of its parameters, and the options that
-- include/knet.hpp takes from it. A URL has less than 2^32 bytes.
pub mod Params
pub mod Encode
pub mod Calls
pub mod Options
pub mod Loose
mod Tests
use mathlib.Core.Option
use knet.Base.{
  ℕ, suc, ◌+◌, ◌-◌, ◌*◌, ◌%◌, ◌^◌, ◌<◌, Bool, true, false, not, ◌&&◌, ◌||◌, Option, none, some,
  List, [], ◌∷◌, ◌++◌, map, if◌then◌else◌, ltb, leb, ◌==◌, length, take, drop, Text, codes,
  same_text, is_empty, find_text, find_byte, lookup, insert, to_decimal, stoi, read_u32, ℤ, pos,
  negsuc,
}

pub record KNetUrl : Type 0 where
  pub protocol : Text
  pub host : Text
  pub port : ℕ
  pub params : List (Text × Text)

-- (uint16_t)n
abbrev pub to_u16 : ℤ → ℕ
to_u16 (pos n) = n % 2 ^ 16
to_u16 (negsuc n) = (2 ^ 16 - 1) - n % 2 ^ 16

unfoldable pub reset : KNetUrl → KNetUrl
reset u = record { protocol = []; host = []; port = 0; params = [] }

-- The variables of the loop over the parameters.
pub record Scan : Type 0 where
  pub is_key : Bool
  pub key : Text
  pub value : Text
  pub params : List (Text × Text)

-- One character.
abbrev pub scan_byte : Scan → ℕ → Scan
scan_byte s c =
    if c == b'='
    then record s { is_key = not s.is_key }
    else if c == b'&'
    then record {
      is_key = not s.is_key;
      key = [];
      value = [];
      params = insert s.key s.value s.params;
    }
    else if s.is_key
    then record s { key = s.key ++ (c ∷ []) }
    else record s { value = s.value ++ (c ∷ []) }

abbrev pub scan : Scan → Text → Scan
scan s [] = s
scan s (c ∷ cs) = scan (scan_byte s c) cs

abbrev pub scan_params : Text → List (Text × Text)
scan_params cs =
    let s = scan (record { is_key = true; key = []; value = []; params = [] }) cs in
    if is_empty s.key then s.params else insert s.key s.value s.params

-- The port, if a text stands behind the colon. `none` is the exception of `std::stoi`.
abbrev pub parse_port : KNetUrl → Text → KNetUrl × Option (Unit {0})
parse_port u p =
    if is_empty p
    then (u, some tt)
    else elim (stoi p) [ none ↦ (u, none) | some n ↦ (record u { port = to_u16 n }, some tt) ]

-- The host and the port; the argument is the place of the colon.
abbrev pub parse_host : KNetUrl → Text → Option ℕ → KNetUrl × Option (Unit {0})
parse_host u host_info none = (record u { host = host_info }, some tt)
parse_host u host_info (some at) =
    parse_port (record u { host = take at host_info }) (drop (suc at) host_info)

-- In front of the first `?`, which the argument places, and behind it.
abbrev pub split_query : Text → Option ℕ → Text × Text
split_query rest none = (rest, [])
split_query rest (some at) = (take at rest, drop (suc at) rest)

abbrev pub with_params : Text → KNetUrl × Option (Unit {0}) → KNetUrl × Option Bool
with_params query (u, none) = (u, none)
with_params query (u, some _) = (record u { params = scan_params query }, some true)

-- What stands behind "://".
abbrev pub parse_rest : KNetUrl → Text → KNetUrl × Option Bool
parse_rest u rest =
    let (host_info, query) = split_query rest (find_byte b'?' rest) in
    with_params query (parse_host u host_info (find_byte b':' host_info))

-- The last argument is the place of "://".
abbrev pub parse_at : KNetUrl → Text → Option ℕ → KNetUrl × Option Bool
parse_at u channel none = (u, some false)
parse_at u channel (some at) =
    parse_rest (record u { protocol = take at channel }) (drop (at + 3) channel)

-- The URL and what `parse` returns; `none` is an exception.
unfoldable pub parse : KNetUrl → Text → KNetUrl × Option Bool
parse u channel = parse_at (reset u) channel (find_text (codes "://") channel)

-- The constructors.
unfoldable pub url_of : Text → KNetUrl × Option Bool
url_of url = parse (record { protocol = []; host = []; port = 0; params = [] }) url

unfoldable pub make_url : Text → Text → ℕ → KNetUrl
make_url proto host_ port_ = record { protocol = proto; host = host_; port = port_; params = [] }

abbrev pub encode_params : List (Text × Text) → Text
encode_params [] = []
encode_params ((k, v) ∷ ps) = (k ++ (b'=' ∷ (v ++ (b'&' ∷ [])))) ++ encode_params ps

abbrev pub port_text : ℕ → Text
port_text n = if ltb 0 n then b':' ∷ to_decimal n else []

abbrev pub query_text : List (Text × Text) → Text
query_text [] = []
query_text (p ∷ ps) = b'?' ∷ encode_params (p ∷ ps)

unfoldable pub encode : KNetUrl → Text
encode u = u.protocol ++ (codes "://" ++ (u.host ++ (port_text u.port ++ query_text u.params)))

unfoldable pub has : KNetUrl → Text → Bool
has u key = elim (lookup key u.params) [ none ↦ false | some _ ↦ true ]

-- The pairs stay in the order in which their keys were put; a `std::unordered_map` promises no order.
unfoldable pub set_param : KNetUrl → Text → Text → KNetUrl
set_param u key val = record u { params = insert key val u.params }

unfoldable pub get : KNetUrl → Text → Text → Text
get u key dft = elim (lookup key u.params) [ none ↦ dft | some v ↦ v ]

-- get<T>, by the cast of T.
unfoldable pub get_as : {T : Type 0} → (Text → T) → KNetUrl → Text → T → T
get_as cast u key dft = elim (lookup key u.params) [ none ↦ dft | some v ↦ cast v ]

abbrev to_lower : ℕ → ℕ
to_lower c = if leb b'A' c && leb c b'Z' then c + 32 else c

-- TypeCaster<bool>: the text in lower case is not used.
unfoldable pub cast_bool : Text → Bool
cast_bool val =
    let str = map to_lower val in
    if same_text val (codes "false") || same_text val (codes "0") || same_text val (codes "no")
    then false
    else true

-- TypeCaster<uint32_t>
unfoldable pub cast_u32 : Text → ℕ
cast_u32 val = elim (read_u32 val) [ none ↦ 0 | some n ↦ n ]

abbrev dump_params : List (Text × Text) → Text
dump_params [] = []
dump_params ((k, v) ∷ ps) = (k ++ (codes " : " ++ (v ++ codes "\n"))) ++ dump_params ps

unfoldable pub dump : KNetUrl → Text
dump u =
    codes "protocol : "
    ++ (u.protocol
        ++ (codes "\nhost : "
            ++ (u.host
                ++ (codes "\nport : "
                    ++ (to_decimal u.port ++ (codes "\n" ++ dump_params u.params))))))

-- What of `NetOptions` can be given in a URL.
pub record NetOptions : Type 0 where
  pub tcp_delay : Bool
  pub sync : Bool
  pub reuse : Bool
  pub backlogs : ℕ
  pub send_buffer_size : ℕ
  pub recv_buffer_size : ℕ
  pub chain_file : Text
  pub dh_file : Text

abbrev pub default_options : NetOptions
default_options = record {
  tcp_delay = true;
  sync = false;
  reuse = true;
  backlogs = 512;
  send_buffer_size = 2 * 1024 * 1024;
  recv_buffer_size = 2 * 1024 * 1024;
  chain_file = codes "cert/server.pem";
  dh_file = codes "cert/dh2048.pem";
}

unfoldable pub options_from_url : KNetUrl → NetOptions
options_from_url u =
    let o = default_options in
    record {
      tcp_delay = get_as cast_bool u (codes "tcp_delay") o.tcp_delay;
      sync = get_as cast_bool u (codes "sync") o.sync;
      reuse = get_as cast_bool u (codes "reuse") o.reuse;
      backlogs = get_as cast_u32 u (codes "backlogs") o.backlogs;
      send_buffer_size = get_as cast_u32 u (codes "sbuf_size") o.send_buffer_size;
      recv_buffer_size = get_as cast_u32 u (codes "rbuf_size") o.recv_buffer_size;
      chain_file = get u (codes "cert") o.chain_file;
      dh_file = get u (codes "cert_key") o.dh_file;
    }
