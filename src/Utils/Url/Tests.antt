-- ===== src/Utils/Url/Tests.antt =====
-- Runs of `KNetUrl` on small URLs, and the theorems about it at them.
use knet.Base.{
  ◌≡◌, refl, true, false, none, some, List, [], ◌∷◌, ◌++◌, arith, Text, codes, lookup, insert,
  to_decimal, stoi, read_u32, Lacks-of_none, find_byte,
}
use knet.Utils.Url.{
  KNetUrl, parse, encode, reset, url_of, make_url, has, set_param, get, dump, options_from_url,
  cast_bool, cast_u32, get_as,
}
use knet.Utils.Url.Params.{IsPlain, Distinct}
use knet.Utils.Url.Encode.{IsEncodable, url_text, parse-encode}
use knet.Utils.Url.Calls.{Call, parsed, assigned, run, values, replay, run-values}
use knet.Utils.Url.Options.{options_from_url-set_param}
use knet.Utils.Url.Loose.{parse-flag, parse-equals}

abbrev blank : KNetUrl
blank = record { protocol = []; host = []; port = 0; params = [] }

abbrev server : KNetUrl
server = record {
  protocol = codes "tcp";
  host = codes "127.0.0.1";
  port = 3333;
  params = (codes "multi", codes "on") ∷ (codes "delay", []) ∷ [];
}

encode-server : encode server ≡ codes "tcp://127.0.0.1:3333?multi=on&delay=&"
unfolding encode to_decimal
encode-server = refl

parse-server : parse blank (codes "tcp://127.0.0.1:3333?multi=on&delay=&") ≡ (server, some true)
unfolding parse reset stoi insert
parse-server = refl

no_protocol : url_of (codes "127.0.0.1:3333") ≡ (blank, some false)
unfolding url_of parse reset
no_protocol = refl

bad_port :
    url_of (codes "tcp://host:abc?k=v")
    ≡ (record { protocol = codes "tcp"; host = codes "host"; port = 0; params = [] }, none)
unfolding url_of parse reset stoi
bad_port = refl

port_wraps : (url_of (codes "tcp://host:70000")).0.port ≡ 4464
unfolding url_of parse reset stoi
port_wraps = refl

made :
    dump (set_param (make_url (codes "ws") (codes "h") 80) (codes "a") (codes "b"))
    ≡ codes "protocol : ws\nhost : h\nport : 80\na : b\n"
unfolding dump set_param make_url insert to_decimal
made = refl

read_back : get_as cast_u32 (set_param blank (codes "n") (codes "-1")) (codes "n") 7 ≡ 4294967295
unfolding get_as cast_u32 set_param insert lookup read_u32
read_back = refl

read_bad : get_as cast_u32 (set_param blank (codes "n") (codes "12x")) (codes "n") 7 ≡ 0
unfolding get_as cast_u32 set_param insert lookup read_u32
read_bad = refl

no_delay :
    (options_from_url (set_param blank (codes "tcp_delay") (codes "false"))).tcp_delay ≡ false
unfolding options_from_url get_as get set_param insert lookup cast_bool
no_delay = refl

plain : (s : Text) → find_byte b'=' s ≡ none → find_byte b'&' s ≡ none → IsPlain s
plain s h h' = record { no_equals = Lacks-of_none b'=' s h; no_and = Lacks-of_none b'&' s h' }

server-IsEncodable : IsEncodable server
unfolding lookup
server-IsEncodable = record {
  protocol_lacks = Lacks-of_none b':' (codes "tcp") refl;
  host_lacks = Lacks-of_none b':' (codes "127.0.0.1") refl;
  host_no_query = Lacks-of_none b'?' (codes "127.0.0.1") refl;
  port_fits = omega arith;
  plain = (
    plain (codes "multi") refl refl,
    plain (codes "on") refl refl,
    (plain (codes "delay") refl refl, plain [] refl refl, tt),
  );
  distinct = (refl, (refl, tt));
}

parse-encode_example : parse blank (encode server) ≡ (server, some true)
parse-encode_example = parse-encode blank server server-IsEncodable

abbrev calls : List Call
calls = parsed (codes "tcp://h?a=1") ∷ assigned (codes "b") (codes "2") ∷ []

run-values_example :
    Distinct (run blank calls).params
    × ((k d : Text)
        → get (run blank calls) k d
          ≡ elim (replay (values blank) calls k) [ none ↦ d | some v ↦ v ])
    × ((k : Text)
        → has (run blank calls) k
          ≡ elim (replay (values blank) calls k) [ none ↦ false | some v ↦ true ])
run-values_example = run-values blank calls tt

options_from_url-set_param_example :
    (options_from_url (set_param blank (codes "backlogs") (to_decimal 64))
      ≡ record (options_from_url blank) { backlogs = 64 })
    × (options_from_url (set_param blank (codes "sbuf_size") (to_decimal 64))
        ≡ record (options_from_url blank) { send_buffer_size = 64 })
    × (options_from_url (set_param blank (codes "rbuf_size") (to_decimal 64))
        ≡ record (options_from_url blank) { recv_buffer_size = 64 })
options_from_url-set_param_example = options_from_url-set_param blank 64 (omega arith)

spelled_large : cast_bool (codes "False") ≡ true
unfolding cast_bool
spelled_large = refl

abbrev h_text : Text
h_text = codes "host"

parse-equals_example :
    parse blank (
      url_text
        (codes "tcp")
        h_text
        80
        (codes "token" ++ (b'=' ∷ (codes "ab" ++ (b'=' ∷ codes "cd")))))
    ≡ (
      record {
        protocol = codes "tcp";
        host = h_text;
        port = 80;
        params = (codes "tokencd", codes "ab") ∷ [];
      },
      some true,
    )
parse-equals_example =
    parse-equals blank (codes "tcp") h_text 80 (Lacks-of_none b':' (codes "tcp") refl)
      (Lacks-of_none b':' h_text refl) (Lacks-of_none b'?' h_text refl) (omega arith)
      (codes "token") (codes "ab") (codes "cd") (plain (codes "token") refl refl)
      (plain (codes "ab") refl refl) (plain (codes "cd") refl refl) refl

parse-flag_example :
    parse blank (
      url_text
        (codes "tcp")
        h_text
        80
        (codes "async" ++ (b'&' ∷ (codes "delay" ++ (b'=' ∷ codes "1")))))
    ≡ (
      record {
        protocol = codes "tcp";
        host = h_text;
        port = 80;
        params = (codes "async", []) ∷ (codes "1", codes "delay") ∷ [];
      },
      some true,
    )
parse-flag_example =
    parse-flag blank (codes "tcp") h_text 80 (Lacks-of_none b':' (codes "tcp") refl)
      (Lacks-of_none b':' h_text refl) (Lacks-of_none b'?' h_text refl) (omega arith)
      (codes "async") (codes "delay") (codes "1") (plain (codes "async") refl refl)
      (plain (codes "delay") refl refl) (plain (codes "1") refl refl) refl refl
