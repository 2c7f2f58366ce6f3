-- ===== src/Complaint/Photos.antt =====
-- How many photos a complaint gets.
use pg_master_backend.Prelude.{
  ℕ, suc, ◌+◌, ◌≤◌, ◌≡◌, refl, ap, ◌⊎◌, inl, inr, String, Bool, not, Option, some, List, [], ◌∷◌,
  ◌++◌, ltb, ◌==◌, arith, length, Option-cases, Bool-cases,
}
use pg_master_backend.Complaint.{
  add_photos, add_log, max_complaint_photos, upload_all, create_photos, complaint_by_id, photos_of,
  add_complaint_photos,
}
use pg_master_backend.Store.Rows.{Table, find_many, create}
use pg_master_backend.Store.Requests.{ComplaintPhoto}
use pg_master_backend.Store.World.{
  World, Fault, ok, err, no_photos, complaint_not_found, access_denied, too_many_photos,
  upload_failed,
}
use pg_master_backend.Tenancy.Notice.{is_owned}

-- Every image gets one address.
upload_all-length :
    (upload : ℕ → Option String) (images : List ℕ) {urls : List String}
    → upload_all upload images ≡ some urls
    → length urls ≡ length images
unfolding upload_all
upload_all-length upload [] uploaded = ground arith
upload_all-length upload (i ∷ is) {urls} uploaded = elim (Option-cases (upload i)) [
  | inl failed ↦ ground arith
  | inr (url, one) ↦ elim (Option-cases (upload_all upload is)) [
    | inl failed ↦ ground arith
    | inr (rest, many) ↦
        let e : urls ≡ url ∷ rest = ground arith in rw e (ap suc (upload_all-length upload is many))
  ]
]

abbrev is_photo_of : ℕ → ComplaintPhoto → Bool
is_photo_of complaint_id p = p.complaint_id == complaint_id

find_many-snoc :
    (complaint_id : ℕ) (ps : List ComplaintPhoto) (p : ComplaintPhoto)
    → p.complaint_id ≡ complaint_id
    → length (find_many (is_photo_of complaint_id) (ps ++ p ∷ []))
      ≡ suc (length (find_many (is_photo_of complaint_id) ps))
find_many-snoc complaint_id [] p mine = ground arith
find_many-snoc complaint_id (q ∷ ps) p mine = elim (Bool-cases (is_photo_of complaint_id q)) [
  | inl hit ↦ rw hit (ap suc (find_many-snoc complaint_id ps p mine))
  | inr miss ↦ rw miss (find_many-snoc complaint_id ps p mine)
]

create_photos-count :
    (complaint_id : ℕ) (urls : List String) (photos : Table ComplaintPhoto)
    → length (find_many (is_photo_of complaint_id) (create_photos complaint_id urls photos).rows)
      ≡ length (find_many (is_photo_of complaint_id) photos.rows) + length urls
unfolding create_photos
create_photos-count complaint_id [] photos = omega arith
create_photos-count complaint_id (url ∷ urls) photos = omega (
  arith,
  create_photos-count complaint_id urls
      (create (λ id. record { id = id; complaint_id = complaint_id; image_url = url }) photos),
  find_many-snoc complaint_id photos.rows
      (record { id = photos.next_id; complaint_id = complaint_id; image_url = url }) refl,
)

add_complaint_photos-outcome :
    (upload : ℕ → Option String) (owner_id complaint_id : ℕ) (images : List ℕ) (w : World)
    → ((e : Fault) × (add_complaint_photos upload owner_id complaint_id images w ≡ (err e, w)))
      ⊎ ((urls : List String) × (upload_all upload images ≡ some urls)
          × (length (photos_of complaint_id w) + length images ≤ max_complaint_photos)
          × (add_complaint_photos upload owner_id complaint_id images w
              ≡ (ok tt, add_log complaint_id (add_photos complaint_id urls w))))
unfolding add_complaint_photos
add_complaint_photos-outcome upload owner_id complaint_id images w =
    elim (Bool-cases (length images == 0)) [
      | inl nothing ↦ inl (no_photos, rw nothing refl)
      | inr many ↦ elim (Option-cases (complaint_by_id complaint_id w)) [
        | inl missing ↦ inl (complaint_not_found, rw (many, missing) refl)
        | inr (c, found) ↦ elim (Bool-cases (not (is_owned owner_id c.property_id w))) [
          | inl foreign ↦ inl (access_denied, rw (many, found, foreign) refl)
          | inr own ↦
              elim (Bool-cases
                (ltb max_complaint_photos (length (photos_of complaint_id w) + length images))) [
                  | inl over ↦ inl (too_many_photos, rw (many, found, own, over) refl)
                  | inr fits ↦ elim (Option-cases (upload_all upload images)) [
                    | inl failed ↦ inl (upload_failed, rw (many, found, own, fits, failed) refl)
                    | inr (urls, uploaded) ↦ inr (
                      urls,
                      uploaded,
                      ground (arith, fits),
                      rw (many, found, own, fits, uploaded) refl,
                    )
                  ]
                ]
        ]
      ]
    ]

-- A call of addComplaintPhotos that is accepted, whatever the uploads answer: the complaint has exactly
-- as many photos more as there are images, and ten at most.
pub add_complaint_photos_counts :
    (upload : ℕ → Option String) (owner_id complaint_id : ℕ) (images : List ℕ) (w : World)
    → (add_complaint_photos upload owner_id complaint_id images w).0 ≡ ok tt
    → let w' = (add_complaint_photos upload owner_id complaint_id images w).1 in
      (length (photos_of complaint_id w') ≡ length (photos_of complaint_id w) + length images)
      × (length (photos_of complaint_id w') ≤ max_complaint_photos)
add_complaint_photos_counts upload owner_id complaint_id images w accepted =
    elim (add_complaint_photos-outcome upload owner_id complaint_id images w) [
      | inl (e, threw) ↦ cc (accepted, ap (λ r. r.0) threw)
      | inr (urls, uploaded, fits, done) ↦
          let count = create_photos-count complaint_id urls w.complaint_photos in
          let same = upload_all-length upload images uploaded in
          rw (ap (λ r. r.1) done) (omega (arith, count, same), omega (arith, fits, count, same))
    ]
