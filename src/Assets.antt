-- ===== src/Assets.antt =====
-- toolbox/src/main/cpp/jni_assets.c: the size of an asset for Java.
mod Tests
pub mod Balance
use my_toolbox.Base.{
  ℕ, ◌+◌, ◌-◌, Option, none, some, List, [], ◌∷◌, Bool, true, false, not, ◌||◌, if◌then◌else◌, Run,
  done, fault, ◌>>=◌, ℤ, pos, negsuc, set,
}

-- What the process has borrowed or opened: strings and arrays of the JVM, and assets.
pub record Held : Type 0 where
  pub strings : ℕ
  pub arrays : ℕ
  pub assets : ℕ

-- A result, the array of the holder as Java sees it, and what is held then.
pub record Result : Type 0 where
  pub ret : ℤ
  pub holder : Option (List ℤ)
  pub held : Held

-- `res_size_holder[0] = file_size`
unfoldable pub store_size : ℤ → List ℤ → Run (List ℤ)
store_size size [] = fault
store_size size (x ∷ xs) = done (size ∷ xs)

-- From the opened asset on.
unfoldable pub put_size : ℤ → List ℤ → Held → Run Result
put_size size holder held =
    let borrowed = record held { arrays = held.arrays + 1 } in
    store_size size holder >>= λ holder'.
    let released = record borrowed { arrays = borrowed.arrays - 1 } in
    let closed = record released { assets = released.assets - 1 } in
    done (record {
      ret = pos 0;
      holder = some holder';
      held = record closed { strings = closed.strings - 1 };
    })

-- From the borrowed string on: `open_asset` is AAssetManager_open, with the asset's length.
unfoldable pub open_and_put : (List ℕ → Option ℤ) → List ℕ → List ℤ → Held → Run Result
open_and_put open_asset path holder held = elim (open_asset path) [
  | none ↦ done (record {
    ret = negsuc 0;
    holder = some holder;
    held = record held { strings = held.strings - 1 };
  })
  | some size ↦ put_size size holder (record held { assets = held.assets + 1 })
]

-- getResSize: is the manager there; the path, `none` if it is null, and inside it `none` if
-- GetStringUTFChars fails; and the holder's array.
unfoldable pub get_res_size :
    (List ℕ → Option ℤ) → Bool → Option (Option (List ℕ)) → Option (List ℤ) → Held → Run Result
get_res_size open_asset false path holder held =
    done (record { ret = negsuc 0; holder = holder; held = held })
get_res_size open_asset true none holder held =
    done (record { ret = negsuc 0; holder = holder; held = held })
get_res_size open_asset true (some path) none held =
    done (record { ret = negsuc 0; holder = none; held = held })
get_res_size open_asset true (some none) (some holder) held =
    done (record { ret = negsuc 0; holder = some holder; held = held })
get_res_size open_asset true (some (some path)) (some holder) held =
    open_and_put open_asset path holder (record held { strings = held.strings + 1 })
