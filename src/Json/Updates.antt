-- ===== src/Json/Updates.antt =====
-- Reads of a dict after one of its keys was set or changed in place.
use planes.Base.{
  String, ◌==◌, eq_iff, eq_refl, ◌≡◌, refl, sym, inl, inr, true, false, if◌then◌else◌, Bool-cases,
}
use planes.Json.{Json, Fields, null, end, field, get, has}

-- `d[key] = value`
abbrev pub put : String → Json → Fields → Fields
put k v end = field k v end
put k v (field j w fs) = let rest = put k v fs in if j == k then field j v fs else field j w rest

-- `d.setdefault(key, value)`
abbrev pub set_default : String → Json → Fields → Fields
set_default k v fs = if has k fs then fs else put k v fs

-- The value of a key is changed in place.
abbrev pub on_key : String → (Json → Json) → Fields → Fields
on_key k f end = end
on_key k f (field j w fs) =
    let rest = on_key k f fs in if j == k then field j (f w) fs else field j w rest

pub get-put : (k : String) (v : Json) (fs : Fields) → get k (put k v fs) ≡ v
get-put k v end = rw (eq_refl k) refl
get-put k v (field i w fs) = elim (Bool-cases (i == k)) [
  | inl here ↦ rw (here, here) refl
  | inr there ↦ rw (there, there) (get-put k v fs)
]

pub get-put_other :
    (j k : String) (v : Json) (fs : Fields) → (k == j) ≡ false → get j (put k v fs) ≡ get j fs
get-put_other j k v end h = rw h refl
get-put_other j k v (field i w fs) h = elim (Bool-cases (i == k)) [
  | inl here ↦
      let other_id : (i == j) ≡ false = rw ((eq_iff i k).0 here) h in rw (here, other_id) refl
  | inr there ↦ elim (Bool-cases (i == j)) [
    | inl wanted ↦ rw (there, wanted) refl
    | inr passed ↦ rw (there, passed) (get-put_other j k v fs h)
  ]
]

pub has-put : (k : String) (v : Json) (fs : Fields) → has k (put k v fs) ≡ true
has-put k v end = rw (eq_refl k) refl
has-put k v (field i w fs) = elim (Bool-cases (i == k)) [
  | inl here ↦ rw (here, here) refl
  | inr there ↦ rw (there, there) (has-put k v fs)
]

pub has-set_default : (k : String) (v : Json) (fs : Fields) → has k (set_default k v fs) ≡ true
has-set_default k v fs = elim (Bool-cases (has k fs)) [
  | inl there ↦ rw there there
  | inr missing ↦ rw missing (has-put k v fs)
]

pub get-set_default_other :
    (j k : String) (v : Json) (fs : Fields)
    → (k == j) ≡ false
    → get j (set_default k v fs) ≡ get j fs
get-set_default_other j k v fs h = elim (Bool-cases (has k fs)) [
  | inl there ↦ rw there refl
  | inr missing ↦ rw missing (get-put_other j k v fs h)
]

pub get-on_key :
    (k : String) (f : Json → Json) (fs : Fields)
    → f null ≡ null
    → get k (on_key k f fs) ≡ f (get k fs)
get-on_key k f end h = sym h
get-on_key k f (field i w fs) h = elim (Bool-cases (i == k)) [
  | inl here ↦ rw (here, here) refl
  | inr there ↦ rw (there, there) (get-on_key k f fs h)
]

pub get-on_key_other :
    (j k : String) (f : Json → Json) (fs : Fields)
    → (k == j) ≡ false
    → get j (on_key k f fs) ≡ get j fs
get-on_key_other j k f end h = refl
get-on_key_other j k f (field i w fs) h = elim (Bool-cases (i == k)) [
  | inl here ↦
      let other_id : (i == j) ≡ false = rw ((eq_iff i k).0 here) h in rw (here, other_id) refl
  | inr there ↦ elim (Bool-cases (i == j)) [
    | inl wanted ↦ rw (there, wanted) refl
    | inr passed ↦ rw (there, passed) (get-on_key_other j k f fs h)
  ]
]
