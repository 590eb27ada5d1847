-- ===== src/Trips/Photos/Numbering.antt =====
-- The sort orders of the proof photos (`createProofPhotoRowsTx` of src/trips/trips.service.ts).
use transpo24_backend_nest_j.Base.{
  ℕ, ◌+◌, ◌≤◌, ◌<◌, ◌≡◌, refl, ap, ◌∙◌, Bool, true, false, ◌⊎◌, inl, inr, List, [], ◌∷◌, ◌++◌,
  count_if, length, ok, arith,
}
use transpo24_backend_nest_j.Trips.State.{PhotoType, ProofPhoto}
use transpo24_backend_nest_j.Trips.Photos.{
  same_kind, of_kind, photo_rows, clashes, create_many, create_proof_photo_rows,
}

-- No photo of the kind has a higher order.
abbrev pub UpTo : PhotoType → ℕ → List ProofPhoto → Type 0
UpTo kind n [] = Unit {0}
UpTo kind n (p ∷ ps) = (of_kind kind p ≡ true → p.sort_order ≤ n) × UpTo kind n ps

-- The orders of each kind go up to the number of its photos.
abbrev pub IsNumbered : List ProofPhoto → Type 0
IsNumbered photos = (kind : PhotoType) → UpTo kind (count_if (of_kind kind) photos) photos

same_kind_refl : (kind : PhotoType) → same_kind kind kind ≡ true
same_kind_refl PhotoType.pickup = refl
same_kind_refl PhotoType.delivery = refl

UpTo-mono :
    (kind : PhotoType) (m n : ℕ) (ps : List ProofPhoto) → m ≤ n → UpTo kind m ps → UpTo kind n ps
UpTo-mono kind m n [] h u = tt
UpTo-mono kind m n (p ∷ ps) h u = (λ e. omega (arith, u.0 e), UpTo-mono kind m n ps h u.1)

UpTo-++ :
    (kind : PhotoType) (n : ℕ) (ps qs : List ProofPhoto)
    → UpTo kind n ps
    → UpTo kind n qs
    → UpTo kind n (ps ++ qs)
UpTo-++ kind n [] qs u v = v
UpTo-++ kind n (p ∷ ps) qs u v = (u.0, UpTo-++ kind n ps qs u.1 v)

count_if-++ :
    (f : ProofPhoto → Bool) (ps qs : List ProofPhoto)
    → count_if f (ps ++ qs) ≡ count_if f ps + count_if f qs
count_if-++ f [] qs = omega arith
count_if-++ f (p ∷ ps) qs = let ih = count_if-++ f ps qs in omega (arith, ih)

photo_rows-UpTo :
    (kind k : PhotoType) (last : ℕ) (urls : List ℕ)
    → UpTo k (last + length urls) (photo_rows kind last urls)
unfolding photo_rows
photo_rows-UpTo kind k last [] = tt
photo_rows-UpTo kind k last (url ∷ urls) = (
  λ _. omega arith,
  UpTo-mono k (last + 1 + length urls) (last + length (url ∷ urls))
      (photo_rows kind (last + 1) urls) (omega arith) (photo_rows-UpTo kind k (last + 1) urls),
)

count_if-photo_rows :
    (kind : PhotoType) (last : ℕ) (urls : List ℕ)
    → count_if (of_kind kind) (photo_rows kind last urls) ≡ length urls
unfolding photo_rows
count_if-photo_rows kind last [] = refl
count_if-photo_rows kind last (url ∷ urls) =
    rw (same_kind_refl kind) (omega (arith, count_if-photo_rows kind (last + 1) urls))

count_if-other_rows :
    (kind k : PhotoType) (last : ℕ) (urls : List ℕ)
    → same_kind kind k ≡ false
    → count_if (of_kind k) (photo_rows kind last urls) ≡ 0
unfolding photo_rows
count_if-other_rows kind k last [] h = refl
count_if-other_rows kind k last (url ∷ urls) h =
    rw h (omega (arith, count_if-other_rows kind k (last + 1) urls h))

clashes_above :
    (kind : PhotoType) (n url order : ℕ) (photos : List ProofPhoto)
    → UpTo kind n photos
    → n < order
    → clashes photos (record { kind = kind; url = url; sort_order = order }) ≡ false
clashes_above kind n url order [] u h = refl
clashes_above kind n url order (p ∷ ps) u h =
    ground (arith, clashes_above kind n url order ps u.1 h)

append-nil : (ps : List ProofPhoto) → ps ++ [] ≡ ps
append-nil [] = refl
append-nil (p ∷ ps) = rw (append-nil ps) refl

append_one :
    (photos : List ProofPhoto) (p : ProofPhoto) (rest : List ProofPhoto)
    → (photos ++ (p ∷ [])) ++ rest ≡ photos ++ (p ∷ rest)
append_one [] p rest = refl
append_one (q ∷ photos) p rest = rw (append_one photos p rest) refl

-- Rows that are numbered on meet neither the earlier ones nor one another.
create_many-photo_rows :
    (kind : PhotoType) (last : ℕ) (urls : List ℕ) (photos : List ProofPhoto)
    → UpTo kind last photos
    → create_many photos (photo_rows kind last urls) ≡ ok (photos ++ photo_rows kind last urls)
unfolding photo_rows create_many
create_many-photo_rows kind last [] photos u = rw (append-nil photos) refl
create_many-photo_rows kind last (url ∷ urls) photos u =
    let p : ProofPhoto = record { kind = kind; url = url; sort_order = last + 1 } in
    rw (clashes_above kind last url (last + 1) photos u (omega arith)) (
      create_many-photo_rows kind (last + 1) urls (photos ++ (p ∷ [])) (
        UpTo-++ kind (last + 1) photos (p ∷ [])
          (UpTo-mono kind last (last + 1) photos (omega arith) u) (λ _. omega arith, tt))
      ∙ ap ok (append_one photos p (photo_rows kind (last + 1) urls)))

other_kind : (kind k : PhotoType) → (same_kind kind k ≡ false) ⊎ (kind ≡ k)
other_kind PhotoType.pickup PhotoType.pickup = inr refl
other_kind PhotoType.pickup PhotoType.delivery = inl refl
other_kind PhotoType.delivery PhotoType.pickup = inl refl
other_kind PhotoType.delivery PhotoType.delivery = inr refl

other_rows-UpTo :
    (kind k : PhotoType) (n last : ℕ) (urls : List ℕ)
    → same_kind kind k ≡ false
    → UpTo k n (photo_rows kind last urls)
unfolding photo_rows
other_rows-UpTo kind k n last [] h = tt
other_rows-UpTo kind k n last (url ∷ urls) h =
    (λ e. ground arith, other_rows-UpTo kind k n (last + 1) urls h)

new_rows-IsNumbered :
    (kind k : PhotoType) (urls : List ℕ) (photos : List ProofPhoto)
    → IsNumbered photos
    → UpTo k
        (count_if (of_kind k) (photos ++ photo_rows kind (count_if (of_kind kind) photos) urls))
        (photos ++ photo_rows kind (count_if (of_kind kind) photos) urls)
new_rows-IsNumbered kind k urls photos h =
    let new = photo_rows kind (count_if (of_kind kind) photos) urls in
    let split = count_if-++ (of_kind k) photos new in
    UpTo-++ k _ photos new
      (UpTo-mono k (count_if (of_kind k) photos) _ photos (omega (arith, split)) (h k))
      (elim (other_kind kind k) [
        | inl other ↦ other_rows-UpTo kind k _ _ urls other
        | inr same ↦
            rw (split, ← same, count_if-photo_rows kind (count_if (of_kind kind) photos) urls)
              (photo_rows-UpTo kind kind (count_if (of_kind kind) photos) urls)
      ])

-- With photos that are numbered, an upload never meets the constraint on the sort orders, neither
-- against the earlier photos nor among the new ones: it succeeds, keeps the earlier photos, adds as many of its kind as there are files, and leaves
-- numbered photos.
pub create_proof_photo_rows-IsNumbered :
    (kind : PhotoType) (urls : List ℕ) (photos : List ProofPhoto)
    → IsNumbered photos
    → (new : List ProofPhoto) × (create_proof_photo_rows kind urls photos ≡ ok (photos ++ new))
      × (count_if (of_kind kind) new ≡ length urls)
      × IsNumbered (photos ++ new)
unfolding create_proof_photo_rows
create_proof_photo_rows-IsNumbered kind [] photos h =
    ([], rw (append-nil photos) refl, refl, rw (append-nil photos) h)
create_proof_photo_rows-IsNumbered kind (url ∷ urls) photos h =
    let n = count_if (of_kind kind) photos in
    (
      photo_rows kind n (url ∷ urls),
      create_many-photo_rows kind n (url ∷ urls) photos (h kind),
      count_if-photo_rows kind n (url ∷ urls),
      λ k. new_rows-IsNumbered kind k (url ∷ urls) photos h,
    )
