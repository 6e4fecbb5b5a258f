-- ===== src/Tasks/Find.antt =====
-- The two loop shapes of task_pool.c against one another.
use asys.Base.{
  ◌≡◌, ◌≢◌, inl, inr, refl, Bool, true, false, none, some, List, [], ◌∷◌, map, Bool-cases, All,
  arith, subst,
}
use asys.Tasks.{TaskEntry, modify_first, find_first}

-- What is found passes the test, and every property of all the entries.
pub find_first-some :
    (P : TaskEntry → Type 0) (test : TaskEntry → Bool) (es : List TaskEntry) {e : TaskEntry}
    → All P es
    → find_first test es ≡ some e
    → (test e ≡ true) × P e
unfolding find_first
find_first-some P test [] a h = cc
find_first-some P test (x ∷ es) {e} a h = elim (Bool-cases (test x)) [
  | inl hit ↦ let same : x ≡ e = ground arith in subst (λ y. (test y ≡ true) × P y) same (hit, a.0)
  | inr miss ↦ find_first-some P test es a.1 (ground arith)
]

pub find_first-none :
    (test : TaskEntry → Bool) (es : List TaskEntry)
    → All (λ e. test e ≡ false) es
    → find_first test es ≡ none
unfolding find_first
find_first-none test [] a = refl
find_first-none test (x ∷ es) a = rw a.0 (find_first-none test es a.1)

-- The first entry with a property, after the loop that writes `e` over the first entry with
-- another, if nothing had the property before.
pub find_first-modify_new :
    (seek test : TaskEntry → Bool) (e : TaskEntry) (es : List TaskEntry)
    → seek e ≡ true
    → find_first seek es ≡ none
    → find_first test es ≢ none
    → find_first seek (modify_first test (λ _. e) es) ≡ some e
unfolding find_first modify_first
find_first-modify_new seek test e [] s n t = absurd (t refl)
find_first-modify_new seek test e (x ∷ es) s n t =
    ground (arith, find_first-modify_new seek test e es s)

-- A search for what a change to every entry neither makes nor unmakes.
pub find_first-map_keep :
    (P : TaskEntry → Type 0) (seek : TaskEntry → Bool) (change : TaskEntry → TaskEntry)
    → ((e : TaskEntry) → P e → seek e ≡ true → change e ≡ e)
    → ((e : TaskEntry) → P e → seek e ≡ false → seek (change e) ≡ false)
    → (es : List TaskEntry) → All P es
    → find_first seek (map change es) ≡ find_first seek es
unfolding find_first
find_first-map_keep P seek change same other [] a = refl
find_first-map_keep P seek change same other (x ∷ es) a = elim (Bool-cases (seek x)) [
  | inl hit ↦ rw (same x a.0 hit, hit) refl
  | inr miss ↦ rw (other x a.0 miss, miss) (find_first-map_keep P seek change same other es a.1)
]

pub modify_first-none :
    (test : TaskEntry → Bool) (change : TaskEntry → TaskEntry) (es : List TaskEntry)
    → find_first test es ≡ none
    → modify_first test change es ≡ es
unfolding find_first modify_first
modify_first-none test change [] h = refl
modify_first-none test change (x ∷ es) h = ground (arith, modify_first-none test change es)

-- A new entry that is then changed in its turn, by a loop with which no other entry fits.
pub find_first-modify_modify :
    (seek test fits : TaskEntry → Bool) (change : TaskEntry → TaskEntry) (e : TaskEntry)
    (es : List TaskEntry)
    → seek (change e) ≡ true
    → fits e ≡ true
    → find_first seek es ≡ none
    → find_first fits es ≡ none
    → find_first test es ≢ none
    → find_first seek (modify_first fits change (modify_first test (λ _. e) es)) ≡ some (change e)
unfolding find_first modify_first
find_first-modify_modify seek test fits change e [] s f n m t = absurd (t refl)
find_first-modify_modify seek test fits change e (x ∷ es) s f n m t =
    ground (arith, find_first-modify_modify seek test fits change e es s f)
