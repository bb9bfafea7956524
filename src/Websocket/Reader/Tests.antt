-- ===== src/Websocket/Reader/Tests.antt =====
-- Frames at concrete inputs.
use knet.Base.{
  ℕ, pos, none, ltb, ◌^◌, if◌then◌else◌, ◌≡◌, refl, true, false, some, List, [], ◌∷◌, arith,
}
use knet.Websocket.Frame.{MaskKey, send_text, handle_package, replicate}
use knet.Websocket.Frame.Encode.{header, xored, send_text-frame}
use knet.Websocket.Reader.{Reader, read}
use knet.Websocket.Reader.RoundTrip.{wire, whole}
use knet.Websocket.Reader.Messages.{cut, read-wire, read-wire-cut}
use knet.Websocket.Reader.Delimit.{handle_package-wire}

abbrev key : MaskKey
key = record { key0 = 0x12; key1 = 0x34; key2 = 0x56; key3 = 0x78 }

abbrev fresh : Reader
fresh = record {
  head = record { fin = false; opcode = 0; mask = false; len = 0 };
  buffer_size = 4096;
  left_length = 0;
  payload_length = 0;
  status = 0;
}

-- "Hello"
abbrev hello : List ℕ
hello = b'H' ∷ b'e' ∷ b'l' ∷ b'l' ∷ b'o' ∷ []

send_hello : send_text hello 1 false key ≡ some (0x81 ∷ 5 ∷ [], hello)
unfolding send_text
send_hello = refl

send_masked :
    send_text hello 1 true key
    ≡ some (0x81 ∷ 0x85 ∷ 0x12 ∷ 0x34 ∷ 0x56 ∷ 0x78 ∷ [], 0x5a ∷ 0x51 ∷ 0x3a ∷ 0x14 ∷ 0x7d ∷ [])
unfolding send_text
send_masked = refl

-- A whole masked frame of 11 bytes is not recognised until 16 bytes are there.
hello_waits : handle_package (wire hello 1 true key []) ≡ pos 0
unfolding handle_package
hello_waits = refl

send_text-frame_example : send_text hello 1 true key ≡ (
    if true
    then if ltb 5 (2 ^ 32) then some (header 5 1 true key, xored key hello) else none
    else some (header 5 1 true key, hello))
send_text-frame_example = send_text-frame hello 1 true key

read-wire_example : read fresh (wire hello 1 true key (7 ∷ [])) ≡ whole hello 1 true key fresh
read-wire_example =
    read-wire fresh hello 1 true key (7 ∷ []) refl (omega arith) (omega arith) (omega arith)
      (omega arith)

abbrev tiny : Reader
tiny = record fresh { buffer_size = 100 }

abbrev letter : List ℕ
letter = replicate 130 b'x'

read-wire-cut_example : read tiny (wire letter 2 true key []) ≡ cut letter 2 true key [] tiny
read-wire-cut_example =
    read-wire-cut tiny letter 2 true key [] (omega arith) (omega arith) (omega arith) (omega arith)
      (omega arith) refl (omega arith)

handle_package-wire_example : handle_package (wire letter 2 true key (1 ∷ 2 ∷ [])) ≡ pos 138
handle_package-wire_example = handle_package-wire letter 2 true key (1 ∷ 2 ∷ []) (omega arith)
