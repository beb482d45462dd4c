-- ===== src/Radius/Packet/Append.antt =====
-- `AppendAttribute` and the `Extract…` functions of RADIUS_helpers.h against the attributes that a
-- packet carries.
use mathlib.Core.Path.{subst}
use mathlib.Core.List.{append-nil, append_assoc}
use wlan_cloud_ucentralgw.Base.{
  ℕ, suc, ◌+◌, ◌-◌, ◌%◌, ◌^◌, ◌≤◌, ◌<◌, ◌≡◌, refl, sym, ap, ◌∙◌, true, List, [], ◌∷◌, ◌++◌, ltb,
  if◌then◌else◌, arith, length, length-append, take,
}
use wlan_cloud_ucentralgw.Radius.Parse.{Buffer, parse_radius}
use wlan_cloud_ucentralgw.Radius.Wire.{
  Attribute, encode, layout, Holds, append-Holds, parse_radius-encode,
}
use wlan_cloud_ucentralgw.Radius.Packet.{
  RadiusPacket, body_size, reparse, poke, write, append_attribute,
}

write-before : (buffer : Buffer) (i j : ℕ) (bs : List ℕ) → j < i → write buffer i bs j ≡ buffer j
unfolding write poke
write-before buffer i j [] h = refl
write-before buffer i j (b ∷ bs) h =
    write-before (poke buffer i b) (suc i) j bs (omega arith) ∙ ground arith

pub write-Holds : (buffer : Buffer) (i : ℕ) (bs : List ℕ) → Holds (write buffer i bs) i bs
unfolding write poke
write-Holds buffer i [] = tt
write-Holds buffer i (b ∷ bs) = (
  write-before (poke buffer i b) (suc i) i bs (omega arith) ∙ ground arith,
  write-Holds (poke buffer i b) (suc i) bs,
)

pub Holds-write :
    (buffer : Buffer) (k i : ℕ) (xs bs : List ℕ)
    → Holds buffer k xs
    → k + length xs ≤ i
    → Holds (write buffer i bs) k xs
Holds-write buffer k i [] bs h le = tt
Holds-write buffer k i (x ∷ xs) bs h le = (
  write-before buffer i k bs (omega arith) ∙ h.0,
  Holds-write buffer (suc k) i xs bs h.1 (omega arith),
)

pub take-length : (xs : List ℕ) → take (length xs) xs ≡ xs
take-length [] = refl
take-length (x ∷ xs) = ap (◌∷◌ x) (take-length xs)

encode-append :
    (ws : List Attribute) (t : ℕ) (v : List ℕ)
    → encode (ws ++ ((t, v) ∷ [])) ≡ encode ws ++ (t ∷ (length v + 2) ∷ v)
unfolding encode
encode-append [] t v = rw append-nil refl
encode-append ((u, x) ∷ ws) t v = rw (encode-append ws t v, append_assoc) refl

-- The packet's bytes are these attributes and nothing else, and it was read so.
pub record Carries (p : RadiusPacket) (ws : List Attribute) : Type 0 where
  pub sized : p.size ≡ 20 + length (encode ws)
  pub holds : Holds p.attributes 0 (encode ws)
  pub read : p.attrs ≡ layout 0 ws
  pub ok : p.valid ≡ true
  pub same_length : p.rawlen ≡ p.size

-- `ReParse` of a packet whose bytes are at most 25 attributes reads them.
pub reparse-Carries :
    (p : RadiusPacket) (ws : List Attribute)
    → p.size ≡ 20 + length (encode ws)
    → Holds p.attributes 0 (encode ws)
    → length ws ≤ 25
    → length (encode ws) ≤ 4096
    → Carries (reparse p) ws
unfolding reparse
reparse-Carries p ws sized holds few room =
    let body : body_size p.size ≡ length (encode ws) = omega (arith, sized) in
    let parsed =
      ap (λ k. parse_radius 0 p.attributes k) body
      ∙ parse_radius-encode ws 0 p.attributes few holds (omega arith) in
    record {
      sized = sized;
      holds = holds;
      read = ap (λ r. r.1) parsed;
      ok = ap (λ r. r.0) parsed;
      same_length = refl;
    }

-- The packet that `AppendAttribute` hands to `ReParse`, from its four computed parts.
laid : RadiusPacket → ℕ → ℕ → ℕ → List ℕ → ℕ → RadiusPacket
laid p i t l bytes size = record p {
  attributes = write p.attributes i (t ∷ l ∷ bytes);
  size = size;
}

laid-cong :
    (p : RadiusPacket) (t : ℕ) {i i' l l' size size' : ℕ} {bytes bytes' : List ℕ}
    → i ≡ i'
    → l ≡ l'
    → bytes ≡ bytes'
    → size ≡ size'
    → reparse (laid p i t l bytes size) ≡ reparse (laid p i' t l' bytes' size')
laid-cong p t {i} {i'} {l} {l'} {size} {size'} {bytes} {bytes'} hi hl hb hs =
    ap (λ x. reparse (laid p x t l bytes size)) hi
    ∙ ap (λ x. reparse (laid p i' t x bytes size)) hl
    ∙ ap (λ x. reparse (laid p i' t l' x size)) hb
    ∙ ap (λ x. reparse (laid p i' t l' bytes' x)) hs

length-encode_append :
    (ws : List Attribute) (t : ℕ) (v : List ℕ)
    → length (encode (ws ++ ((t, v) ∷ []))) ≡ length (encode ws) + (2 + length v)
length-encode_append ws t v =
    ap length (encode-append ws t v)
    ∙ length-append (encode ws) (t ∷ (length v + 2) ∷ v)
    ∙ omega arith

-- A packet that carries these attributes and has room for one more of this value.
module _ (p : RadiusPacket) (ws : List Attribute) (t : ℕ) (v : List ℕ) where
  all : List Attribute
  all = ws ++ ((t, v) ∷ [])

  appended : RadiusPacket
  appended =
      laid p (length (encode ws)) t (length v + 2) v (20 + length (encode (ws ++ ((t, v) ∷ []))))

  -- On a well formed packet the bytes are those of the attribute, behind all others.
  append_attribute-write :
      p.size ≡ 20 + length (encode ws)
      → length v ≤ 253
      → length (encode ws) + (2 + length v) ≤ 4096
      → append_attribute t v p ≡ reparse appended
  unfolding append_attribute appended laid
  append_attribute-write sized short room =
      let n : length v % 2 ^ 8 ≡ length v = omega arith in
      let at : (if ltb p.size 20 then 20 else p.size) ≡ 20 + length (encode ws) = ground arith in
      laid-cong p t (ap (λ k. k - 20) at ∙ omega arith) (omega (arith, n))
        (ap (λ k. take k v) n ∙ take-length v) (omega (arith, n, at, length-encode_append ws t v))

  appended-Holds : Carries p ws → Holds appended.attributes 0 (encode all)
  unfolding appended laid all
  appended-Holds c =
      let b = t ∷ (length v + 2) ∷ v in
      let bs = write p.attributes (length (encode ws)) b in
      subst (λ xs. Holds bs 0 xs) (sym (encode-append ws t v))
        (append-Holds bs 0 (encode ws) b
          (Holds-write p.attributes 0 (length (encode ws)) (encode ws) b c.holds (omega arith))
          (subst (λ k. Holds bs k b) (omega arith)
            (write-Holds p.attributes (length (encode ws)) b)))

  appended-Carries :
      Carries p ws
      → length ws ≤ 24
      → length (encode ws) + (2 + length v) ≤ 4096
      → Carries (reparse appended) all
  unfolding encode appended all laid
  appended-Carries c few room =
      reparse-Carries appended all refl (appended-Holds c)
        (omega (arith, length-append ws ((t, v) ∷ []))) (omega (arith, length-encode_append ws t v))

  -- An attribute whose value has at most 253 bytes, appended to a packet that carries at most 24
  -- attributes and has room for it in its 4096 bytes: the packet then carries the same attributes
  -- and the new one behind them, is valid, and its length is right.
  pub append_attribute-Carries :
      Carries p ws
      → length ws ≤ 24
      → length v ≤ 253
      → length (encode ws) + (2 + length v) ≤ 4096
      → Carries (append_attribute t v p) (ws ++ ((t, v) ∷ []))
  unfolding all
  append_attribute-Carries c few short room =
      subst (λ q. Carries q all) (sym (append_attribute-write c.sized short room))
        (appended-Carries c few room)
