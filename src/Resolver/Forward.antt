-- ===== src/Resolver/Forward.antt =====
-- The race of the upstreams: which reply `forward` takes.
use kaven_dns.Prelude.{
  All, none, some, [], ◌∷◌, inl, inr, refl, ℕ, ◌≡◌, List, Text, sym, ◌↔◌, ap, map, ◌⊎◌,
}
use kaven_dns.Resolver.Defs.{ask, forward, first_reply}
use kaven_dns.Resolver.World.{success, Message, failure, World, Reply}

abbrev pub Occurs : {A : Type 0} → A → List A → Type 0
Occurs x [] = ⊥
Occurs x (y ∷ ys) = (y ≡ x) ⊎ Occurs x ys

map-Occurs : (f : Text → Reply) (x : Text) (xs : List Text) → Occurs x xs → Occurs (f x) (map f xs)
map-Occurs f x [] h = absurd h
map-Occurs f x (y ∷ ys) (inl e) = inl (ap f e)
map-Occurs f x (y ∷ ys) (inr h) = inr (map-Occurs f x ys h)

Occurs-map :
    (f : Text → Reply) (r : Reply) (xs : List Text)
    → Occurs r (map f xs)
    → (x : Text) × Occurs x xs × (f x ≡ r)
Occurs-map f r [] h = absurd h
Occurs-map f r (y ∷ ys) (inl e) = (y, inl refl, e)
Occurs-map f r (y ∷ ys) (inr h) = let (x, there, e) = Occurs-map f r ys h in (x, inr there, e)

All-Occurs : (P : Text → Type 0) (xs : List Text) → ((x : Text) → Occurs x xs → P x) → All P xs
All-Occurs P [] h = tt
All-Occurs P (x ∷ xs) h = (h x (inl refl), All-Occurs P xs (λ y there. h y (inr there)))

-- Either every reply is a failure, or the reply taken is one of them.
first_reply-cases :
    (rs : List Reply)
    → ((first_reply rs ≡ none) × ((r : Reply) → Occurs r rs → r ≡ failure))
      ⊎ ((m : Message) × (raw : Text) × (first_reply rs ≡ some (m, raw))
          × Occurs (success m raw) rs)
unfolding first_reply
first_reply-cases [] = inl (refl, λ r h. absurd h)
first_reply-cases (failure ∷ rs) = elim (first_reply-cases rs) [
  | inl (nothing, each) ↦ inl (nothing, λ r h. elim h [ inl e ↦ sym e | inr there ↦ each r there ])
  | inr (m, raw, found, there) ↦ inr (m, raw, found, inr there)
]
first_reply-cases (success m raw ∷ rs) = inr (m, raw, refl, inl refl)

-- If every reply arrives, and no other, in whatever order, then `forward` fails exactly if each
-- upstream fails, and else it takes the reply of one of the upstreams that answered.
pub forward_lem :
    (w : World) (level : ℕ) (domain : Text) (query_type : ℕ) (upstreams : List Text)
    → ((rs : List Reply) (r : Reply) → Occurs r (w.arrival level rs) ↔ Occurs r rs)
    → ((forward w level domain query_type upstreams ≡ none)
        × All (λ raw. ask w level domain query_type raw ≡ failure) upstreams)
      ⊎ ((m : Message) × (raw name : Text) × (forward w level domain query_type upstreams
            ≡ some (m, name))
          × Occurs raw upstreams
          × (ask w level domain query_type raw ≡ success m name))
unfolding forward
forward_lem w level domain query_type upstreams arrives =
    let asked = ask w level domain query_type in
    let replies = map asked upstreams in
    elim (first_reply-cases (w.arrival level replies)) [
      | inl (nothing, each) ↦
          let failed_one = λ (raw : Text) (there : Occurs raw upstreams).
            each (asked raw)
              ((arrives replies (asked raw)).1 (map-Occurs asked raw upstreams there)) in
          inl (nothing, All-Occurs (λ raw. asked raw ≡ failure) upstreams failed_one)
      | inr (m, name, found, there) ↦
          let (raw, one, same) =
            Occurs-map asked (success m name) upstreams
              ((arrives replies (success m name)).0 there) in
          inr (m, raw, name, found, one, same)
    ]
