-- ===== src/Mc/Announcement.antt =====
-- What a fake server announces is what the scanner reads.
mod Find
use terracotta_ffi.Base.{
  ℕ, ◌+◌, ◌-◌, ◌%◌, ◌^◌, ◌≤◌, ◌<◌, ◌≡◌, refl, sym, ap, ap₂, ◌∙◌, Bool, true, false, ◌&&◌, List, [],
  ◌∷◌, ◌++◌, Option, none, some, length, length-append, take, drop, take-append, take-all,
  drop-append, append_assoc, ltb, leb, All, All-append, if◌then◌else◌, Text, Bytes, codes, arith,
  inl, inr, Bool-cases,
}
use terracotta_ffi.Base.Utf8.{encode, is_scalar, all_scalar_sound}
use terracotta_ffi.Base.Decimal.{u16_to_string, parse_u16, parse_u16-u16_to_string}
use terracotta_ffi.Mc.{
  message, next, find, get, slice, between, wrapping_sub, accepted, advertised, heard,
}
use terracotta_ffi.Mc.Scanner.{port_in}
use terracotta_ffi.Mc.Announcement.Find.{
  shift, find-skip, find-plain, is_plain-digits, IsDigits, u16_length, u16_to_string-IsDigits,
}

get_middle :
    (pre mid post : Text)
    → get (length pre) (length pre + length mid) (pre ++ (mid ++ post)) ≡ some mid
unfolding get
get_middle pre mid post =
    let a : leb (length pre) (length pre + length mid) ≡ true = ground arith in
    let b : leb (length pre + length mid) (length (pre ++ (mid ++ post))) ≡ true =
      ground (arith, length-append pre (mid ++ post), length-append mid post) in
    let n : length pre + length mid - length pre ≡ length mid = omega arith in
    rw (a, b, n, drop-append pre (mid ++ post), take-append mid post)

-- A text between its tags, where these are the first of their kind.
between-middle :
    (open_tag close_tag buf pre mid post : Text)
    → buf ≡ (pre ++ open_tag) ++ (mid ++ post)
    → find open_tag buf ≡ some (length pre)
    → find close_tag buf ≡ some (length pre + length open_tag + length mid)
    → 0 < length mid
    → length open_tag + length mid < 2 ^ 64
    → between open_tag close_tag buf ≡ some mid
unfolding between
between-middle open_tag close_tag buf pre mid post shape f g h k =
    let to : ℕ = length pre + length open_tag + length mid in
    let t : ltb (length open_tag) (wrapping_sub to (length pre)) ≡ true = ground arith in
    let e : length pre + length open_tag ≡ length (pre ++ open_tag) =
      sym (length-append pre open_tag) in
    ap₂ (λ a b. slice (length open_tag) a b buf) f g
    ∙ rw (t, e, shape) (get_middle (pre ++ open_tag) mid post)

abbrev six : Option ℕ → Option ℕ
six o = next (next (next (next (next (next o)))))

module _ (motd : Text) (port : ℕ) where
  after_motd : Text
  after_motd = codes "[/MOTD][AD]" ++ (u16_to_string port ++ codes "[/AD]")

  -- The MOTD of an announcement.
  between-motd :
      length motd < 2 ^ 63
      → 0 < length motd
      → find (codes "[/MOTD]") motd ≡ none
      → between (codes "[MOTD]") (codes "[/MOTD]") (message motd port) ≡ some motd
  unfolding message find after_motd
  between-motd short some_motd h =
      let e : find (codes "[/MOTD]") (message motd port) ≡ some (6 + length motd) =
        ap six (find-skip (codes "/MOTD]") motd _ refl h) ∙ ap some (omega arith) in
      between-middle (codes "[MOTD]") (codes "[/MOTD]") (message motd port) [] motd after_motd refl
        refl e some_motd (omega arith)

  -- The port of an announcement.
  between-port :
      find (codes "[AD]") motd ≡ none
      → find (codes "[/AD]") motd ≡ none
      → between (codes "[AD]") (codes "[/AD]") (message motd port) ≡ some (u16_to_string port)
  unfolding message find
  between-port h k =
      let pre : Text = codes "[MOTD]" ++ (motd ++ codes "[/MOTD]") in
      let digits : Text = u16_to_string port in
      let plain : find (codes "[/AD]") digits ≡ none =
        find-plain (codes "/AD]") digits (is_plain-digits digits (u16_to_string-IsDigits port)) in
      let whole : message motd port ≡ (pre ++ codes "[AD]") ++ (digits ++ codes "[/AD]") =
        let seven = codes "[/MOTD]" in
        let four = codes "[AD]" in
        let rest = digits ++ codes "[/AD]" in
        ap (λ t. codes "[MOTD]" ++ t)
          (sym (append_assoc (motd ++ seven) four rest ∙ append_assoc motd seven (four ++ rest))) in
      let f : find (codes "[AD]") (message motd port) ≡ some (length pre) =
        ap six (find-skip (codes "AD]") motd _ refl h)
        ∙ ap some (omega (arith, length-append motd (codes "[/MOTD]"))) in
      let g : find (codes "[/AD]") (message motd port) ≡ some (length pre + 4 + length digits) =
        ap six (
          find-skip (codes "/AD]") motd _ refl k
          ∙ ap (λ o. shift (length motd) (next (next (next (next (next (six o)))))))
              (find-skip (codes "/AD]") digits _ refl plain))
        ∙ ap some (omega (arith, length-append motd (codes "[/MOTD]"))) in
      between-middle (codes "[AD]") (codes "[/AD]") (message motd port) pre digits (codes "[/AD]")
        whole f g (u16_length port).0 (omega (arith, u16_length port))

-- A text that an announcement can carry: of Unicode scalar values, not empty, and with none of the tags
-- that the scanner looks for behind it.
pub record IsMotd (motd : Text) : Type 0 where
  pub scalar : All (λ c. is_scalar c ≡ true) motd
  pub some_motd : 0 < length motd
  pub short : length motd < 2 ^ 63
  pub no_end : find (codes "[/MOTD]") motd ≡ none
  pub no_port : find (codes "[AD]") motd ≡ none
  pub no_port_end : find (codes "[/AD]") motd ≡ none

digits-scalar : (t : Text) → IsDigits t → All (λ c. is_scalar c ≡ true) t
digits-scalar [] d = tt
digits-scalar (c ∷ t) d = (ground (arith, d.0), digits-scalar t d.1)

message-scalar :
    (motd : Text) (port : ℕ)
    → All (λ c. is_scalar c ≡ true) motd
    → All (λ c. is_scalar c ≡ true) (message motd port)
unfolding message
message-scalar motd port h =
    let digits : Text = u16_to_string port in
    let is : ℕ → Type 0 = λ c. is_scalar c ≡ true in
    let tail =
      All-append is digits (codes "[/AD]") (digits-scalar digits (u16_to_string-IsDigits port))
        (all_scalar_sound (codes "[/AD]") refl) in
    All-append is (codes "[MOTD]") _ (all_scalar_sound (codes "[MOTD]") refl) (
      All-append is motd _ h
        (All-append is (codes "[/MOTD][AD]") _ (all_scalar_sound (codes "[/MOTD][AD]") refl) tail))

-- The scanner keeps the announced port when its filter wants the MOTD, and nothing otherwise. The
-- MOTD is one that an announcement can carry, the decoding of bytes keeps what is UTF-8, and the packet fits
-- into the 8192 bytes of the scanner's buffer.
pub port_in-message :
    (lossy : Bytes → Text) (filter : Text → Bool) (motd : Text) (port time : ℕ)
    → ((s : Text) → All (λ c. is_scalar c ≡ true) s → lossy (encode s) ≡ s)
    → IsMotd motd
    → port < 65536
    → length (encode (message motd port)) ≤ 8192
    → port_in lossy filter (record { bytes = some (encode (message motd port)); time = time })
      ≡ (if filter motd then some port else none)
unfolding port_in heard
port_in-message lossy filter motd port time keeps m p fits =
    let whole : take 8192 (encode (message motd port)) ≡ encode (message motd port) =
      take-all 8192 (encode (message motd port)) fits in
    let e : lossy (encode (message motd port)) ≡ message motd port =
      keeps (message motd port) (message-scalar motd port m.scalar) in
    rw
      (
        whole,
        e,
        accepted,
        between-motd motd port m.short m.some_motd m.no_end,
        advertised,
        between-port motd port m.no_port m.no_port_end,
        parse_u16-u16_to_string port p,
      )
      refl
