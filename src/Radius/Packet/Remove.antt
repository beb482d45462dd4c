-- ===== src/Radius/Packet/Remove.antt =====
-- `RemoveAttribute` of RADIUS_helpers.h. It moves as many bytes as the packet keeps, which may
-- reach beyond the 4096 bytes of the attributes; there is no result then.
use mathlib.Core.Path.{subst}
use mathlib.Core.List.{append_assoc}
use wlan_cloud_ucentralgw.Base.{
  ℕ, suc, ◌+◌, ◌-◌, ◌%◌, ◌^◌, ◌≤◌, ◌<◌, ◌⊎◌, inl, inr, Bool-cases, ◌≡◌, refl, sym, ap, ◌∙◌, ◌≢◌,
  true, false, ◌&&◌, Option, none, some, List, [], ◌∷◌, ◌++◌, ltb, leb, ◌==◌, if◌then◌else◌, arith,
  length, length-append, All,
}
use wlan_cloud_ucentralgw.Radius.Parse.{Buffer, RadiusAttribute, AttributeList}
use wlan_cloud_ucentralgw.Radius.Wire.{
  Attribute, encode, layout, Holds, Holds-append, append-Holds, length-encode_cons,
}
use wlan_cloud_ucentralgw.Radius.Packet.{RadiusPacket, reparse}
use wlan_cloud_ucentralgw.Radius.Packet.Append.{Carries, reparse-Carries}

-- `memmove(&attributes[dst], &attributes[src], n)` where both stay within the array.
unfoldable pub move_bytes : Buffer → ℕ → ℕ → ℕ → Buffer
move_bytes buffer dst src n j =
    if leb dst j && ltb j (dst + n) then buffer (src + (j - dst)) else buffer j

unfoldable pub first_of : ℕ → AttributeList → Option RadiusAttribute
first_of type [] = none
first_of type (a ∷ attrs) =
    let rest = first_of type attrs in if a.type == type then some a else rest

-- Sizes are unsigned: 32 bits for the move, 16 for the packet.
unfoldable pub remove_at : RadiusAttribute → RadiusPacket → Option RadiusPacket
remove_at a p =
    let shrink = (a.len + 2) % 2 ^ 32 in
    let size = (p.size + 2 ^ 32 - shrink) % 2 ^ 32 in
    if leb (a.pos + a.len + size) 4096
    then some (
        reparse (record p {
          attributes = move_bytes p.attributes (a.pos - 2) (a.pos + a.len) size;
          size = size % 2 ^ 16;
        }))
    else none

unfoldable pub remove_attribute : ℕ → RadiusPacket → Option RadiusPacket
remove_attribute type p = elim (first_of type p.attrs) [ none ↦ some p | some a ↦ remove_at a p ]

encode-append_all :
    (front back : List Attribute) → encode (front ++ back) ≡ encode front ++ encode back
unfolding encode
encode-append_all [] back = refl
encode-append_all ((u, x) ∷ front) back = rw (encode-append_all front back, append_assoc) refl

first_of-layout :
    (t pos : ℕ) (v : List ℕ) (front back : List Attribute)
    → All (λ (w : Attribute). w.0 ≢ t) front
    → first_of t (layout pos (front ++ ((t, v) ∷ back)))
      ≡ some (record { type = t; pos = pos + length (encode front) + 2; len = length v })
unfolding first_of layout encode
first_of-layout t pos v [] back h =
    let here : (t == t) ≡ true = ground arith in
    let at : pos + 2 ≡ pos + 0 + 2 = omega arith in rw (here, at) refl
first_of-layout t pos v ((u, x) ∷ front) back (other, h) =
    let apart : (u == t) ≡ false = ground arith in
    let ih = first_of-layout t (pos + (2 + length x)) v front back h in
    let at : pos + (2 + length x) + length (encode front) + 2
        ≡ pos + length (encode ((u, x) ∷ front)) + 2 =
      omega (arith, length-encode_cons u x front) in
    rw apart (ih ∙ ap (λ k. some (record { type = t; pos = k; len = length v })) at)

Holds-kept :
    (buffer : Buffer) (dst src n i : ℕ) (xs : List ℕ)
    → Holds buffer i xs
    → i + length xs ≤ dst
    → Holds (move_bytes buffer dst src n) i xs
unfolding move_bytes
Holds-kept buffer dst src n i [] h le = tt
Holds-kept buffer dst src n i (x ∷ xs) h le =
    (ground (arith, h.0), Holds-kept buffer dst src n (suc i) xs h.1 (omega arith))

Holds-moved :
    (buffer : Buffer) (dst k n i : ℕ) (xs : List ℕ)
    → Holds buffer (i + k) xs
    → dst ≤ i
    → i + length xs ≤ dst + n
    → Holds (move_bytes buffer dst (dst + k) n) i xs
unfolding move_bytes
Holds-moved buffer dst k n i [] h lo hi = tt
Holds-moved buffer dst k n i (x ∷ xs) h lo hi =
    let from : dst + k + (i - dst) ≡ i + k = omega arith in
    let inside : (leb dst i && ltb i (dst + n)) ≡ true = ground arith in
    let next : suc (i + k) ≡ suc i + k = omega arith in
    (
      rw (inside, from) h.0,
      Holds-moved buffer dst k n (suc i) xs (subst (λ m. Holds buffer m xs) next h.1) (omega arith)
          (omega arith),
    )

module _ (p : RadiusPacket) (front back : List Attribute) (t : ℕ) (v : List ℕ) where
  removed : ℕ → RadiusPacket
  removed size = record p {
    attributes =
        move_bytes p.attributes (length (encode front)) (length (encode front) + (2 + length v))
          size;
    size = size;
  }

  removed-Holds :
      (size : ℕ)
      → Holds p.attributes 0 (encode (front ++ ((t, v) ∷ back)))
      → length (encode back) ≤ size
      → Holds (removed size).attributes 0 (encode (front ++ back))
  unfolding removed encode
  removed-Holds size h enough =
      let b =
        move_bytes p.attributes (length (encode front)) (length (encode front) + (2 + length v))
          size in
      let all = subst (λ xs. Holds p.attributes 0 xs) (encode-append_all front ((t, v) ∷ back)) h in
      let (before, (_, (_, rest))) = Holds-append p.attributes 0 (encode front) _ all in
      let (_, behind) = Holds-append p.attributes _ v (encode back) rest in
      let at : suc (suc (0 + length (encode front))) + length v
          ≡ length (encode front) + (2 + length v) =
        omega arith in
      let moved =
        Holds-moved p.attributes (length (encode front)) (2 + length v) size (length (encode front))
          (encode back) (subst (λ m. Holds p.attributes m (encode back)) at behind) (omega arith)
          (omega arith) in
      let kept =
        Holds-kept p.attributes (length (encode front)) (length (encode front) + (2 + length v))
          size 0 (encode front) before (omega arith) in
      let zero_at : length (encode front) ≡ 0 + length (encode front) = omega arith in
      subst (λ xs. Holds b 0 xs) (sym (encode-append_all front back))
        (append-Holds b 0 (encode front) (encode back) kept
          (subst (λ m. Holds b m (encode back)) zero_at moved))

moved_packet : RadiusPacket → ℕ → ℕ → ℕ → ℕ → Option RadiusPacket
moved_packet p dst src n size =
    if leb (src + n) 4096
    then some (reparse (record p { attributes = move_bytes p.attributes dst src n; size = size }))
    else none

moved_packet-cong :
    (p : RadiusPacket) {dst dst' src src' n n' size size' : ℕ}
    → dst ≡ dst'
    → src ≡ src'
    → n ≡ n'
    → size ≡ size'
    → moved_packet p dst src n size ≡ moved_packet p dst' src' n' size'
moved_packet-cong p {dst} {dst'} {src} {src'} {n} {n'} {size} {size'} hd hs hn hz =
    ap (λ x. moved_packet p x src n size) hd
    ∙ ap (λ x. moved_packet p dst' x n size) hs
    ∙ ap (λ x. moved_packet p dst' src' x size) hn
    ∙ ap (λ x. moved_packet p dst' src' n' x) hz

length-encode_removed :
    (front back : List Attribute) (t : ℕ) (v : List ℕ)
    → length (encode (front ++ ((t, v) ∷ back))) ≡ length (encode (front ++ back)) + (2 + length v)
length-encode_removed front back t v =
    let all =
      ap length (encode-append_all front ((t, v) ∷ back)) ∙ length-append (encode front) _ in
    let less =
      ap length (encode-append_all front back) ∙ length-append (encode front) (encode back) in
    omega (arith, all, less, length-encode_cons t v back)

-- Removing a type from a packet that carries it, in at most 4096 bytes and with at most 25
-- attributes left. As many bytes as the packet keeps, its header's 20 included, are moved from
-- behind the first attribute of the type. If they end within the 4096 bytes of the attributes, that
-- attribute is taken away and the others are kept in order: the packet is valid, and its length is
-- right. If not, the move leaves the attributes and there is no result.
pub remove_attribute-cases :
    (p : RadiusPacket) (front back : List Attribute) (t : ℕ) (v : List ℕ)
    → Carries p (front ++ ((t, v) ∷ back))
    → All (λ (w : Attribute). w.0 ≢ t) front
    → length (front ++ back) ≤ 25
    → length (encode (front ++ ((t, v) ∷ back))) ≤ 4096
    → let end = length (encode front) + (2 + length v) + (20 + length (encode (front ++ back))) in
      ((end ≤ 4096)
        × (q : RadiusPacket) × (remove_attribute t p ≡ some q)
        × Carries q (front ++ back))
      ⊎ ((4096 < end) × (remove_attribute t p ≡ none))
unfolding remove_attribute
remove_attribute-cases p front back t v c other few room =
    let size = 20 + length (encode (front ++ back)) in
    let total = length-encode_removed front back t v in
    let found = ap (first_of t) c.read ∙ first_of-layout t 0 v front back other in
    let a : RadiusAttribute = record {
      type = t;
      pos = 0 + length (encode front) + 2;
      len = length v;
    } in
    let less =
      ap length (encode-append_all front back) ∙ length-append (encode front) (encode back) in
    let holds = removed-Holds p front back t v size c.holds (omega (arith, less)) in
    let done =
      reparse-Carries (removed p front back t v size) (front ++ back) (unfold removed in refl) holds
        few (omega (arith, total)) in
    let sized = c.sized in
    let end = length (encode front) + (2 + length v) + size in
    let same : remove_at a p
        ≡ moved_packet p (length (encode front)) (length (encode front) + (2 + length v)) size
            size =
      unfold remove_at moved_packet in
      moved_packet-cong p (omega arith) (omega arith) (omega (arith, sized, total))
        (omega (arith, sized, total)) in
    elim (Bool-cases (leb end 4096)) [
      | inl e ↦
          let inside : end ≤ 4096 = ground (arith, e) in
          let moved : moved_packet p (length (encode front))
                (length (encode front) + (2 + length v)) size size
              ≡ some (reparse (removed p front back t v size)) =
            unfold moved_packet removed in rw e refl in
          inl (
            inside,
            reparse (removed p front back t v size),
            rw (found, remove_attribute) (same ∙ moved),
            done,
          )
      | inr e ↦
          let outside : 4096 < end = ground (arith, e) in
          let gone : moved_packet p (length (encode front)) (length (encode front) + (2 + length v))
                size size
              ≡ none =
            unfold moved_packet in rw e refl in
          inr (outside, rw (found, remove_attribute) (same ∙ gone))
    ]
