-- ===== src/Trips/Photos.antt =====
-- The proof photos of a trip: `createProofPhotoRowsTx` of src/trips/trips.service.ts. The rows of a
-- request and a kind have distinct sort orders, by a constraint of prisma/schema.prisma.
pub mod Numbering
use transpo24_backend_nest_j.Base.{
  ℕ, ◌+◌, ltb, ◌==◌, Bool, true, false, ◌&&◌, Option, none, some, List, [], ◌∷◌, ◌++◌, any,
  count_if, if◌then◌else◌, Result, ok, err,
}
use transpo24_backend_nest_j.Trips.State.{
  TripError, duplicate_photo, PhotoType, pickup, delivery, ProofPhoto, Text, text,
}

abbrev pub same_kind : PhotoType → PhotoType → Bool
same_kind pickup pickup = true
same_kind delivery delivery = true
same_kind pickup delivery = false
same_kind delivery pickup = false

abbrev pub of_kind : PhotoType → ProofPhoto → Bool
of_kind kind p = same_kind p.kind kind

-- The rows of the uploaded files, numbered after the given one.
unfoldable pub photo_rows : PhotoType → ℕ → List ℕ → List ProofPhoto
photo_rows kind last [] = []
photo_rows kind last (url ∷ urls) =
    record { kind = kind; url = url; sort_order = last + 1 } ∷ photo_rows kind (last + 1) urls

abbrev pub clashes : List ProofPhoto → ProofPhoto → Bool
clashes photos p = any (λ q. same_kind q.kind p.kind && q.sort_order == p.sort_order) photos

-- `createMany`, with the unique constraint: a row meets it against the rows before the call and the
-- new rows before its own. The rows that are there are given with what is inserted so far.
unfoldable pub create_many : List ProofPhoto → List ProofPhoto → Result TripError (List ProofPhoto)
create_many photos [] = ok photos
create_many photos (p ∷ new) =
    let rest = create_many (photos ++ (p ∷ [])) new in
    if clashes photos p then err duplicate_photo else rest

unfoldable pub create_proof_photo_rows :
    PhotoType → List ℕ → List ProofPhoto → Result TripError (List ProofPhoto)
unfolding photo_rows create_many
create_proof_photo_rows kind [] photos = ok photos
create_proof_photo_rows kind (url ∷ urls) photos =
    create_many photos (photo_rows kind (count_if (of_kind kind) photos) (url ∷ urls))

abbrev earlier : ProofPhoto → Option ProofPhoto → ProofPhoto
earlier p none = p
earlier p (some q) = if ltb q.sort_order p.sort_order then q else p

-- The first row of a kind in the order of `sortOrder`.
unfoldable pub first_photo : PhotoType → List ProofPhoto → Option ProofPhoto
first_photo kind [] = none
first_photo kind (p ∷ photos) =
    let rest = first_photo kind photos in if of_kind kind p then some (earlier p rest) else rest

abbrev url_of : Option ProofPhoto → Option Text → Option Text
url_of none image = image
url_of (some p) image = some (text p.url)

-- `proofPhotos[0]?.url ?? proofImageUrl ?? null`: without an upload no row is read back.
unfoldable pub proof_image_url : PhotoType → List ℕ → List ProofPhoto → Option Text → Option Text
unfolding first_photo
proof_image_url kind [] photos image = image
proof_image_url kind (url ∷ urls) photos image = url_of (first_photo kind photos) image
