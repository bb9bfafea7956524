-- ===== src/Utils/Url/Options.antt =====
-- The options that a URL gives.
use knet.Base.{
  ℕ, ◌^◌, ◌<◌, ◌≡◌, refl, ◌↔◌, ◌⊎◌, false, arith, if◌then◌else◌, Text, codes, same_text,
  same_text_iff, lookup-insert, to_decimal, read_u32-to_decimal,
}
use knet.Utils.Url.{KNetUrl, options_from_url, set_param, get, get_as, cast_bool, cast_u32}

get_as-set_param :
    {T : Type 0} (cast : Text → T) (u : KNetUrl) (k v j : Text) (d : T)
    → get_as cast (set_param u k v) j d ≡ (if same_text k j then cast v else get_as cast u j d)
unfolding get_as set_param
get_as-set_param cast u k v j d = ground (arith, lookup-insert k j v u.params)

get-set_param :
    (u : KNetUrl) (k v j d : Text)
    → get (set_param u k v) j d ≡ (if same_text k j then v else get u j d)
unfolding get set_param
get-set_param u k v j d = ground (arith, lookup-insert k j v u.params)

cast_u32-to_decimal : (n : ℕ) → n < 2 ^ 32 → cast_u32 (to_decimal n) ≡ n
unfolding cast_u32
cast_u32-to_decimal n h = rw (cast_u32, read_u32-to_decimal n h) refl

-- Writing a number below 2^32 into one of the parameters "backlogs", "sbuf_size" and "rbuf_size"
-- gives that number for its option and leaves the other seven as they were.
pub options_from_url-set_param :
    (u : KNetUrl) (n : ℕ)
    → n < 2 ^ 32
    → (options_from_url (set_param u (codes "backlogs") (to_decimal n))
        ≡ record (options_from_url u) { backlogs = n })
      × (options_from_url (set_param u (codes "sbuf_size") (to_decimal n))
          ≡ record (options_from_url u) { send_buffer_size = n })
      × (options_from_url (set_param u (codes "rbuf_size") (to_decimal n))
          ≡ record (options_from_url u) { recv_buffer_size = n })
unfolding options_from_url
options_from_url-set_param u n h =
    let e = cast_u32-to_decimal n h in
    (
      simp (get_as-set_param, get-set_param, e),
      simp (get_as-set_param, get-set_param, e),
      simp (get_as-set_param, get-set_param, e),
    )

-- A parameter that is read as a Boolean is false exactly for the texts "false", "0" and "no" as they
-- stand, so not for "False" or "NO".
pub cast_bool-false :
    (val : Text)
    → (cast_bool val ≡ false) ↔ ((val ≡ codes "false") ⊎ ((val ≡ codes "0") ⊎ (val ≡ codes "no")))
unfolding cast_bool
cast_bool-false val = ground (
  arith,
  same_text_iff val (codes "false"),
  same_text_iff val (codes "0"),
  same_text_iff val (codes "no"),
)
