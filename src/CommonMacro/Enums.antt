-- ===== src/CommonMacro/Enums.antt =====
-- The enumerations with strings of toolbox/src/main/cpp/lcu/common_macro.h. What a macro like
-- FOREACH_STATES_ITEM hands to its generator is the list of the names.
use my_toolbox.Base.{ℕ, zero, suc, ◌+◌, ◌≡◌, List, [], ◌∷◌, map, some, get_elem?, arith}
use my_toolbox.Log.{Text}

-- An item of the enumeration, with the value that C gives to it.
pub record EnumItem : Type 0 where
  pub name : Text
  pub value : ℕ

-- The items from a value on: an enumerator is one more than the one before.
unfoldable pub enumerators : ℕ → List Text → List EnumItem
enumerators k [] = []
enumerators k (item ∷ items) = record { name = item; value = k } ∷ enumerators (suc k) items

-- DEF_ENUM
unfoldable pub def_enum : List Text → List EnumItem
unfolding enumerators
def_enum foreach_enum = enumerators 0 foreach_enum

-- _GENERATOR_ENUM_STR: `#item`
abbrev pub generator_enum_str : Text → Text
generator_enum_str item = item

-- DEF_ENUM_STRS
unfoldable pub def_enum_strs : List Text → List Text
def_enum_strs foreach_enum = map generator_enum_str foreach_enum

enumerators-value :
    (k i : ℕ) (items : List Text) (e : EnumItem)
    → get_elem? (enumerators k items) i ≡ some e
    → (e.value ≡ k + i) × (get_elem? (map generator_enum_str items) i ≡ some e.name)
unfolding enumerators
enumerators-value k i [] e h = absurd (ground arith)
enumerators-value k zero (item ∷ items) e h = (ground (arith, h), ground (arith, h))
enumerators-value k (suc i) (item ∷ items) e h =
    let (value, name) = enumerators-value (suc k) i items e h in (omega arith, name)

-- The strings of an enumeration at the value of each of its items are the item's name, and the
-- values of the items are the indices of the strings, each once.
def_enum_strs-value :
    (items : List Text) (i : ℕ) (e : EnumItem)
    → get_elem? (def_enum items) i ≡ some e
    → (get_elem? (def_enum_strs items) e.value ≡ some e.name) × (e.value ≡ i)
unfolding def_enum def_enum_strs
def_enum_strs-value items i e h =
    let (value, name) = enumerators-value 0 i items e h in
    let same : e.value ≡ i = omega arith in (rw same name, same)
