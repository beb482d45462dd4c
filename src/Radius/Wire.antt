-- ===== src/Radius/Wire.antt =====
-- The attributes of a RADIUS packet as RFC 2865 lays them out, and what `ParseRadius` of
-- RADIUS_helpers.h reads of them: type, length with the two bytes of the header, value.
use wlan_cloud_ucentralgw.Base.{
  ℕ, zero, suc, ◌+◌, ◌%◌, ◌^◌, ◌≤◌, ◌<◌, ◌≡◌, refl, ap, ◌∙◌, true, List, [], ◌∷◌, ◌++◌, arith,
  length, length-append,
}
use mathlib.Core.Path.{subst}
use mathlib.Core.List.{append-nil, append_assoc}
use wlan_cloud_ucentralgw.Radius.Parse.{
  Buffer, AttributeList, attribute_at, parse_loop, parse_radius,
}

-- A type and the bytes of a value.
abbrev pub Attribute : Type 0
Attribute = ℕ × List ℕ

unfoldable pub encode : List Attribute → List ℕ
encode [] = []
encode ((t, v) ∷ ws) = t ∷ (length v + 2) ∷ (v ++ encode ws)

-- Where the values stand if the first header stands at `pos`.
unfoldable pub layout : ℕ → List Attribute → AttributeList
layout pos [] = []
layout pos ((t, v) ∷ ws) =
    record { type = t; pos = pos + 2; len = length v } ∷ layout (pos + (2 + length v)) ws

-- The bytes stand in the buffer from an offset on.
abbrev pub Holds : Buffer → ℕ → List ℕ → Type 0
Holds buffer i [] = Unit {0}
Holds buffer i (b ∷ bs) = (buffer i ≡ b) × Holds buffer (suc i) bs

pub Holds-append :
    (buffer : Buffer) (i : ℕ) (xs ys : List ℕ)
    → Holds buffer i (xs ++ ys)
    → Holds buffer i xs × Holds buffer (i + length xs) ys
Holds-append buffer i [] ys h = (tt, subst (λ k. Holds buffer k ys) (omega arith) h)
Holds-append buffer i (x ∷ xs) ys h =
    let (hx, hy) = Holds-append buffer (suc i) xs ys h.1 in
    ((h.0, hx), subst (λ k. Holds buffer k ys) (omega arith) hy)

pub append-Holds :
    (buffer : Buffer) (i : ℕ) (xs ys : List ℕ)
    → Holds buffer i xs
    → Holds buffer (i + length xs) ys
    → Holds buffer i (xs ++ ys)
append-Holds buffer i [] ys hx hy = subst (λ k. Holds buffer k ys) (omega arith) hy
append-Holds buffer i (x ∷ xs) ys hx hy =
    (hx.0, append-Holds buffer (suc i) xs ys hx.1 (subst (λ k. Holds buffer k ys) (omega arith) hy))

pub length-encode_cons :
    (t : ℕ) (v : List ℕ) (ws : List Attribute)
    → length (encode ((t, v) ∷ ws)) ≡ 2 + length v + length (encode ws)
unfolding encode
length-encode_cons t v ws = omega (arith, length-append v (encode ws))

pub parse_loop-end :
    (x offset : ℕ) (buffer : Buffer) (size pos : ℕ) (attrs : AttributeList)
    → size ≤ pos
    → parse_loop x offset buffer size pos attrs ≡ (true, attrs)
unfolding parse_loop
parse_loop-end zero offset buffer size pos attrs h = refl
parse_loop-end (suc x) offset buffer size pos attrs h = ground arith

-- The header of a value of `n` bytes.
attribute_at-header :
    (offset : ℕ) (buffer : Buffer) (pos t n : ℕ)
    → buffer pos ≡ t
    → buffer (pos + 1) ≡ n + 2
    → pos + 2 + offset < 2 ^ 16
    → n < 2 ^ 16
    → attribute_at offset buffer pos ≡ record { type = t; pos = pos + offset + 2; len = n }
unfolding attribute_at
attribute_at-header offset buffer pos t n ht hn small short = ground arith

-- One round on a header of a value of `n` bytes that the buffer holds.
parse_loop-step :
    (x offset : ℕ) (buffer : Buffer) (size pos t n : ℕ) (attrs : AttributeList)
    → buffer pos ≡ t
    → buffer (pos + 1) ≡ n + 2
    → pos + (2 + n) ≤ size
    → size + offset < 2 ^ 16
    → parse_loop (suc x) offset buffer size pos attrs
      ≡ parse_loop x offset buffer size
          (pos + (2 + n))
          (attrs ++ (record { type = t; pos = pos + offset + 2; len = n } ∷ []))
unfolding parse_loop
parse_loop-step x offset buffer size pos t n attrs ht hn fits small =
    let header = attribute_at-header offset buffer pos t n ht hn (omega arith) (omega arith) in
    let wraps : (pos + (n + 2)) % 2 ^ 16 ≡ pos + (2 + n) = omega arith in
    rw (header, hn) (rw wraps (ground arith))

parse_loop-encode :
    (ws : List Attribute) (x offset : ℕ) (buffer : Buffer) (size pos : ℕ) (attrs : AttributeList)
    → length ws ≤ x
    → Holds buffer pos (encode ws)
    → size ≡ pos + length (encode ws)
    → size + offset < 2 ^ 16
    → parse_loop x offset buffer size pos attrs ≡ (true, attrs ++ layout (pos + offset) ws)
unfolding layout encode
parse_loop-encode [] x offset buffer size pos attrs hx h hs small =
    parse_loop-end x offset buffer size pos attrs (omega arith) ∙ rw append-nil
parse_loop-encode ((t, v) ∷ ws) zero offset buffer size pos attrs hx h hs small =
    absurd (omega arith)
parse_loop-encode ((t, v) ∷ ws) (suc x) offset buffer size pos attrs hx (ht, (hn, hv)) hs small =
    let total = length-append v (encode ws) in
    let (_, rest) = Holds-append buffer (suc (suc pos)) v (encode ws) hv in
    let next : suc (suc pos) + length v ≡ pos + (2 + length v) = omega arith in
    let shift : pos + (2 + length v) + offset ≡ pos + offset + (2 + length v) = omega arith in
    parse_loop-step x offset buffer size pos t (length v) attrs ht
      (subst (λ k. buffer k ≡ length v + 2) (omega arith) hn) (omega (arith, total)) small
    ∙ parse_loop-encode ws x offset buffer size (pos + (2 + length v)) _ (omega arith)
        (subst (λ k. Holds buffer k (encode ws)) next rest) (omega (arith, total)) small
    ∙ rw (append_assoc, shift) refl

-- A buffer that holds at most 25 attributes and nothing else is read as these attributes, in
-- order, each with the offset and length of its value; offsets stay below 2^16.
pub parse_radius-encode :
    (ws : List Attribute) (offset : ℕ) (buffer : Buffer)
    → length ws ≤ 25
    → Holds buffer 0 (encode ws)
    → length (encode ws) + offset < 2 ^ 16
    → parse_radius offset buffer (length (encode ws)) ≡ (true, layout offset ws)
unfolding parse_radius
parse_radius-encode ws offset buffer hx h small =
    parse_loop-encode ws 25 offset buffer (length (encode ws)) 0 [] hx h (omega arith) small
    ∙ ap (λ k. (true, layout k ws)) (omega arith)
