-- ===== src/Assets/Balance.antt =====
-- The answer of getResSize in toolbox/src/main/cpp/jni_assets.c, and what it holds at its end.
use my_toolbox.Base.{
  ℕ, ◌≡◌, refl, ◌<◌, Option, none, some, List, [], ◌∷◌, Bool, true, false, done, ℤ, pos, negsuc,
  arith, Option-cases, inl, inr, length,
}
use my_toolbox.Assets.{Held, store_size, put_size, open_and_put, get_res_size}

-- The size that the call asks for, if its parameters are there and the asset opens.
unfoldable pub size_of : (List ℕ → Option ℤ) → Bool → Option (Option (List ℕ)) → Option ℤ
size_of open_asset true (some (some path)) = open_asset path
size_of open_asset true (some none) = none
size_of open_asset true none = none
size_of open_asset false path = none

-- The answer for a size or none: 0 and the size in front of the holder's array, or -1.
unfoldable pub answer : Option ℤ → List ℤ → ℤ × List ℤ
answer none holder = (negsuc 0, holder)
answer (some size) [] = (pos 0, [])
answer (some size) (x ∷ xs) = (pos 0, size ∷ xs)

-- getResSize with a holder that has an element ends with the size in the holder and 0, or with
-- the holder as it was and -1 if a parameter or the asset is not there; on every branch it has
-- given back each string, array and asset.
pub get_res_size-answer :
    (open_asset : List ℕ → Option ℤ) (mgr : Bool) (path : Option (Option (List ℕ)))
    (holder : List ℤ) (held : Held)
    → 0 < length holder
    → get_res_size open_asset mgr path (some holder) held
      ≡ done (record {
        ret = (answer (size_of open_asset mgr path) holder).0;
        holder = some (answer (size_of open_asset mgr path) holder).1;
        held = held;
      })
unfolding get_res_size open_and_put put_size store_size size_of answer
get_res_size-answer open_asset mgr path [] held h = absurd (omega arith)
get_res_size-answer open_asset false path (x ∷ holder) held h = refl
get_res_size-answer open_asset true none (x ∷ holder) held h = refl
get_res_size-answer open_asset true (some none) (x ∷ holder) held h = refl
get_res_size-answer open_asset true (some (some name)) (x ∷ holder) held h =
    elim (Option-cases (open_asset name)) [ inl e ↦ ground arith | inr e ↦ ground arith ]
