-- ===== src/Standard/ContentLaws.antt =====
-- signedContent: what a signature binds.
use hookbound.Base.{ℕ, ◌≡◌, refl, ◌≢◌, [], ◌∷◌, ◌++◌, Text, All, arith}
use hookbound.Message.Laws.{IdByte}
use hookbound.Standard.{signed_content}

cons_inj : {c d : ℕ} {x y : Text} → ◌≡◌ {A = Text} (c ∷ x) (d ∷ y) → (c ≡ d) × (x ≡ y)
cons_inj h = ground (arith, h)

-- The first dot parts a text in one way only.
first_dot :
    (a b x y : Text)
    → All (λ c. c ≢ b'.') a
    → All (λ c. c ≢ b'.') b
    → a ++ b'.' ∷ x ≡ b ++ b'.' ∷ y
    → (a ≡ b) × (x ≡ y)
first_dot [] [] x y p q h = (refl, (cons_inj h).1)
first_dot [] (d ∷ b) x y p (first, q) h = absurd (ground (arith, cons_inj h))
first_dot (c ∷ a) [] x y (first, p) q h = absurd (ground (arith, cons_inj h))
first_dot (c ∷ a) (d ∷ b) x y (_, p) (_, q) h =
    let (same, rest) = cons_inj h in
    let (a=b, x=y) = first_dot a b x y p q rest in (rw (same, a=b), x=y)

All-dotless : (id : Text) → All IdByte id → All (λ c. c ≢ b'.') id
All-dotless [] h = tt
All-dotless (c ∷ id) ((first, _, _), h) = (first, All-dotless id h)

-- Two signed contents with valid message ids and with timestamps that hold no dot are the same
-- bytes only if the message ids, the timestamps and the bodies are all the same.
pub signed_content-Injective :
    (id id' timestamp timestamp' body body' : Text)
    → All IdByte id
    → All IdByte id'
    → All (λ c. c ≢ b'.') timestamp
    → All (λ c. c ≢ b'.') timestamp'
    → signed_content id timestamp body ≡ signed_content id' timestamp' body'
    → (id ≡ id') × (timestamp ≡ timestamp') × (body ≡ body')
unfolding signed_content
signed_content-Injective id id' timestamp timestamp' body body' valid valid' plain plain' same =
    let (ids, rest) =
      first_dot id id' (timestamp ++ b'.' ∷ body) (timestamp' ++ b'.' ∷ body')
        (All-dotless id valid) (All-dotless id' valid') same in
    let (times, bodies) = first_dot timestamp timestamp' body body' plain plain' rest in
    (ids, times, bodies)
