-- ===== src/Query/Sets.antt =====
-- Sets of packets with distinct ids: what the set operations of src/query/query_eval.rs keep.
use mathlib.Core.List.{Perm, Permᴰ}
use mathlib.Core.Logic.{∥∥₁_elim}
use mathlib.Core.Bool.{Bool-set}
use outpack_server.Packet.{Packet, has_packet, same_packet}
use outpack_server.Prelude.{
  All, All-All, All-imp, Bool, List, [], append-nil, append_assoc, arith, false, if◌then◌else◌,
  keep, keep-keep, keep_cong, list_eq, nat_eq, not, refl, sym, ◌&&◌, ◌++◌, ◌||◌, ◌∙◌, ◌∷◌, ◌≡◌,
}
use outpack_server.Query.Eval.{set_of, set_onto}

-- No two packets of the list have the same id.
abbrev pub Distinct : List Packet → Type 0
Distinct [] = Unit
Distinct (p ∷ ps) = (has_packet ps p ≡ false) × Distinct ps

same_packet_comm : (a b : Packet) → same_packet a b ≡ same_packet b a
same_packet_comm a b = ground arith

has_packet-Permᴰ : {a b : List Packet} → Permᴰ a b → (p : Packet) → has_packet a p ≡ has_packet b p
has_packet-Permᴰ Permᴰ.nil p = refl
has_packet-Permᴰ (Permᴰ.cons {a = x} {b = y} e h) p = rw (e, has_packet-Permᴰ h p)
has_packet-Permᴰ (Permᴰ.swap {a = x} {b = y} {a' = z} {b' = w} {l = l} e d) p =
    rw (e, d) (ground arith)
has_packet-Permᴰ (Permᴰ.trans h k) p = has_packet-Permᴰ h p ∙ has_packet-Permᴰ k p

pub has_packet-perm :
    {a b : List Packet} → Perm a b → (p : Packet) → has_packet a p ≡ has_packet b p
has_packet-perm h p = ∥∥₁_elim h (Bool-set _ _) (λ k. has_packet-Permᴰ k p)

Distinct-prop : (l : List Packet) → IsProp (Distinct l)
Distinct-prop [] = hlevel
Distinct-prop (p ∷ l) = hlevel (Distinct-prop l)

Distinct-Permᴰ : {a b : List Packet} → Permᴰ a b → Distinct a → Distinct b
Distinct-Permᴰ Permᴰ.nil d = tt
Distinct-Permᴰ (Permᴰ.cons {a = x} {b = y} e h) (n, d) =
    (rw (← e) (sym (has_packet-Permᴰ h x) ∙ n), Distinct-Permᴰ h d)
Distinct-Permᴰ (Permᴰ.swap {a = x} {b = y} {a' = z} {b' = w} {l = l} e k) d =
    rw (← e, ← k) (ground arith)
Distinct-Permᴰ (Permᴰ.trans h k) d = Distinct-Permᴰ k (Distinct-Permᴰ h d)

pub Distinct-perm : {a b : List Packet} → Perm a b → Distinct a → Distinct b
Distinct-perm {b = b} h d = ∥∥₁_elim h (Distinct-prop b) (λ k. Distinct-Permᴰ k d)

has_packet-keep-le :
    (f : Packet → Bool) (l : List Packet) (p : Packet)
    → has_packet l p ≡ false
    → has_packet (keep f l) p ≡ false
has_packet-keep-le f [] p h = refl
has_packet-keep-le f (x ∷ l) p h = ground (arith, has_packet-keep-le f l p)

pub keep-Distinct : (f : Packet → Bool) (l : List Packet) → Distinct l → Distinct (keep f l)
keep-Distinct f [] d = tt
keep-Distinct f (x ∷ l) (n, d) = ground (arith, keep-Distinct f l d, has_packet-keep-le f l x n)

-- A packet of another id changes nothing for the packets at hand.
has_packet-add :
    (f : Packet → Bool) (x : Packet) (b : Bool) (kept l : List Packet)
    → All (λ p. has_packet kept p ≡ f p) l
    → has_packet l x ≡ false
    → All (λ p. has_packet (if b then x ∷ kept else kept) p ≡ f p) l
has_packet-add f x b kept [] a n = tt
has_packet-add f x b kept (p ∷ l) (e, a) n =
    (ground arith, has_packet-add f x b kept l a (ground arith))

-- Of a packet of the list a filter's result tells whether it passed the test.
pub has_packet-keep :
    (f : Packet → Bool) (l : List Packet) → Distinct l → All (λ p. has_packet (keep f l) p ≡ f p) l
has_packet-keep f [] d = tt
has_packet-keep f (x ∷ l) (n, d) = (
  ground (arith, has_packet-keep-le f l x n),
  has_packet-add f x (f x) (keep f l) l (has_packet-keep f l d) n,
)

pub has_packet-append :
    (a b : List Packet) (p : Packet) → has_packet (a ++ b) p ≡ (has_packet a p || has_packet b p)
has_packet-append [] b p = refl
has_packet-append (x ∷ a) b p = ground (arith, has_packet-append a b p)

absent_after :
    (seen l : List Packet) (p : Packet)
    → has_packet l p ≡ false
    → All (λ q. has_packet seen q ≡ false) l
    → All (λ q. has_packet (seen ++ (p ∷ [])) q ≡ false) l
absent_after seen [] p n a = tt
absent_after seen (q ∷ l) p n (h, a) =
    (ground (arith, has_packet-append seen (p ∷ []) q), absent_after seen l p (ground arith) a)

set_onto-append :
    (seen l : List Packet)
    → Distinct l
    → All (λ p. has_packet seen p ≡ false) l
    → set_onto seen l ≡ seen ++ l
unfolding set_onto
set_onto-append seen [] d a = sym (append-nil seen)
set_onto-append seen (p ∷ l) (n, d) (h, a) = rw h (
    set_onto-append (seen ++ (p ∷ [])) l d (absent_after seen l p n a)
    ∙ append_assoc seen (p ∷ []) l)

-- A set is made of distinct packets without loss.
pub set_of-Distinct : (l : List Packet) → Distinct l → set_of l ≡ l
unfolding set_of
set_of-Distinct l d = set_onto-append [] l d (All-All (λ _. refl) l)

module _ (index : List Packet) (distinct : Distinct index) (f g : Packet → Bool) where
  -- Both filters of one index, so what the second says of the first's packets is its test.
  pub keep-has_packet :
      keep (has_packet (keep g index)) (keep f index) ≡ keep (λ p. f p && g p) index
  keep-has_packet =
      keep-keep (has_packet (keep g index)) f index
      ∙ keep_cong _ _ index (All-imp (λ p e. rw e) index (has_packet-keep g index distinct))

  pub keep-lacks_packet :
      keep (λ p. not (has_packet (keep g index) p)) (keep f index)
      ≡ keep (λ p. not (g p) && f p) index
  keep-lacks_packet =
      keep-keep (λ p. not (has_packet (keep g index) p)) f index
      ∙ keep_cong _ _ index
          (All-imp (λ p e. rw e (ground arith)) index (has_packet-keep g index distinct))
