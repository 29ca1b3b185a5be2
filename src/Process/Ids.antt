-- ===== src/Process/Ids.antt =====
-- Process IDs: the driver that NewID writes is the driver that driverFromID reads.
use native.Mathlib.Decide.{ℕ_discrete as dec_eq}
use habitat_new.Prelude.{
  ℕ, Str, str_eq, split_first, count_byte, [], ◌∷◌, ◌++◌, ◌≡◌, ◌≢◌, refl, ap, ◌∙◌, ◌⊎◌, inl, inr,
  ◌↔◌, All, ok, err, arith,
}
use habitat_new.App.{unknown, noop, docker, web, driver_type_from_string}
use habitat_new.Process.Defs.{new_id, driver_from_id, malformed_id}

-- No byte of the text is a colon.
abbrev pub NoColon : Str → Type 0
NoColon = All (λ (c : ℕ). c ≢ b':')

split_first-append : (s rest : Str) → NoColon s → (split_first b':' (s ++ b':' ∷ rest)).0 ≡ s
unfolding split_first
split_first-append [] rest h = refl
split_first-append (c ∷ s) rest h = ground (arith, split_first-append s rest h.1)

split_first-ne-nil : (s : Str) → count_byte b':' s ≢ 0 → (split_first b':' s).1 ≢ []
unfolding split_first count_byte
split_first-ne-nil [] h = absurd (h refl)
split_first-ne-nil (c ∷ s) h = ground (arith, split_first-ne-nil s)

split_first-eq-nil : (s : Str) → count_byte b':' s ≡ 0 → (split_first b':' s).1 ≡ []
unfolding split_first count_byte
split_first-eq-nil [] h = refl
split_first-eq-nil (c ∷ s) h = ground (arith, split_first-eq-nil s)

count_byte-append_colon : (s rest : Str) → count_byte b':' (s ++ b':' ∷ rest) ≢ 0
unfolding count_byte
count_byte-append_colon [] rest = ground arith
count_byte-append_colon (c ∷ s) rest = ground (arith, count_byte-append_colon s rest)

driver_from_id-many :
    (id : Str)
    → (split_first b':' id).1 ≢ []
    → driver_from_id id ≡ ok (driver_type_from_string (split_first b':' id).0)
unfolding driver_from_id
driver_from_id-many id h = ground arith

driver_from_id-one :
    (id : Str) → (split_first b':' id).1 ≡ [] → driver_from_id id ≡ err (malformed_id id)
unfolding driver_from_id
driver_from_id-one id h = ground arith

-- For every driver type without a colon and every UUID, driverFromID of NewID reads the type as
-- DriverTypeFromString does.
pub driver_from_id-new_id :
    (driver uuid : Str)
    → NoColon driver
    → driver_from_id (new_id driver uuid) ≡ ok (driver_type_from_string driver)
unfolding new_id
driver_from_id-new_id driver uuid h =
    driver_from_id-many _ (split_first-ne-nil _ (count_byte-append_colon driver uuid))
    ∙ ap (λ (d : Str). ok (driver_type_from_string d)) (split_first-append driver uuid h)

-- One of the driver types that the program declares.
abbrev pub IsDriverType : Str → Type 0
IsDriverType d = (d ≡ unknown) ⊎ (d ≡ noop) ⊎ (d ≡ docker) ⊎ (d ≡ web)

driver_type_from_string-IsDriverType : (d : Str) → IsDriverType d → driver_type_from_string d ≡ d
unfolding driver_type_from_string str_eq
driver_type_from_string-IsDriverType d (inl e) = rw e refl
driver_type_from_string-IsDriverType d (inr (inl e)) = rw e refl
driver_type_from_string-IsDriverType d (inr (inr (inl e))) = rw e refl
driver_type_from_string-IsDriverType d (inr (inr (inr e))) = rw e refl

no_colon : (d : Str) → IsDriverType d → NoColon d
no_colon d (inl e) = rw e (omega arith)
no_colon d (inr (inl e)) = rw e (omega arith)
no_colon d (inr (inr (inl e))) = rw e (omega arith)
no_colon d (inr (inr (inr e))) = rw e (omega arith)

-- For each driver type of the program and every UUID, the driver that NewID writes into a process
-- ID is the one that driverFromID reads from it.
pub driver_from_id-round_trip :
    (driver uuid : Str) → IsDriverType driver → driver_from_id (new_id driver uuid) ≡ ok driver
driver_from_id-round_trip driver uuid h =
    driver_from_id-new_id driver uuid (no_colon driver h)
    ∙ ap ok (driver_type_from_string-IsDriverType driver h)

-- An ID is refused as malformed exactly where it holds no colon.
pub driver_from_id-malformed :
    (id : Str) → (driver_from_id id ≡ err (malformed_id id)) ↔ (count_byte b':' id ≡ 0)
driver_from_id-malformed id = (
  λ e. elim (dec_eq (count_byte b':' id) 0) [
    | yes z ↦ z
    | no nz ↦ cc (driver_from_id-many id (split_first-ne-nil id nz))
  ],
  λ z. driver_from_id-one id (split_first-eq-nil id z),
)
