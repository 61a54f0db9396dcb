-- ===== src/Storage/Refines.antt =====
-- The table `tasks` of src/infra/storage.rs as the finite map that its users see, where SQLite does
-- not fail.
use mathlib.Core.Path.{fun_ext}
use wqc_node.Base.{
  ℕ, ◌≡◌, refl, ap, subst, ◌∙◌, Bool, true, false, List, [], ◌∷◌, Option, none, some, Result, ok,
  err, if◌then◌else◌, Bool-cases, Option-cases, inl, inr,
}
use wqc_node.Base.Int.{ℤ}
use wqc_node.Base.Text.{Text, text}
use wqc_node.Models.{ComputeTask}
use wqc_node.Storage.{Storage, StorageError, TaskCols, unique_violation, sql_error, key, key_of}
use wqc_node.Storage.Tasks.{save_task, load_task, update_status, set_status}
use wqc_node.Storage.Rows.{Key, Row, key_eq, key_eq_iff, find_row, has_key}
use wqc_node.Storage.Rows.Lookup.{
  find_row-update_key, find_row-append, has_key-find_row, apply_to, or_else,
}

-- The operations, and what each answers.
pub data Call : Type 0 where
  saves : ComputeTask → ℤ → Call
  loads : Text → Text → Call
  sets_status : Text → Text → Text → Call

pub data Answer : Type 0 where
  done : Answer
  conflict : Answer
  loaded : Option ComputeTask → Answer
  broken : Answer

-- The abstract store: a task and its status under each key.
abbrev pub TaskMap : Type 0
TaskMap = Key → Option TaskCols

abbrev pub map_status : Text → Option TaskCols → Option TaskCols
map_status status none = none
map_status status (some c) = some (record c { status = status })

abbrev pub payload_of : Option TaskCols → Option ComputeTask
payload_of none = none
payload_of (some c) = some c.payload

abbrev pub new_cols : ComputeTask → TaskCols
new_cols task = record { payload = task; status = text "pending" }

-- A new key is added, and one that is there is a conflict.
abbrev pub add : ComputeTask → TaskMap → Option TaskCols → Answer × TaskMap
add task m (some c) = (conflict, m)
add task m none = (done, λ j. if key_eq (key_of task) j then some (new_cols task) else m j)

abbrev pub abstract_call : Call → TaskMap → Answer × TaskMap
abstract_call (saves task now) m = add task m (m (key_of task))
abstract_call (loads k t) m = (loaded (payload_of (m (key k t))), m)
abstract_call (sets_status k t status) m =
    (done, λ j. if key_eq (key k t) j then map_status status (m j) else m j)

abbrev pub answer_of : Result (Unit {0}) StorageError → Answer
answer_of (ok u) = done
answer_of (err unique_violation) = conflict
answer_of (err sql_error) = broken

abbrev pub loaded_of : Result (Option ComputeTask) StorageError → Answer
loaded_of (ok o) = loaded o
loaded_of (err e) = broken

unfoldable pub concrete_call : Call → Storage → Answer × Storage
unfolding save_task load_task update_status
concrete_call (saves task now) db = let (r, db') = save_task task now db in (answer_of r, db')
concrete_call (loads k t) db = let (r, db') = load_task k t db in (loaded_of r, db')
concrete_call (sets_status k t status) db =
    let (r, db') = update_status k t status db in (answer_of r, db')

abbrev pub cols_of : Option (Row TaskCols) → Option TaskCols
cols_of none = none
cols_of (some r) = some r.cols

-- The map that a database stands for.
abbrev pub view : Storage → TaskMap
view db j = cols_of (find_row j db.tasks.rows)

-- The answer is the abstract one, and so is the map after it; the database does not start to fail.
abbrev Simulates : Call → Storage → Type 0
Simulates c db =
    let (a, m) = abstract_call c (view db) in
    let (a', db') = concrete_call c db in
    (a' ≡ a) × ((j : Key) → view db' j ≡ m j) × (db'.faults ≡ [])

loads_row :
    (o : Option (Row TaskCols))
    → loaded (elim o [ none ↦ none | some r ↦ some r.cols.payload ])
      ≡ loaded (payload_of (cols_of o))
loads_row none = refl
loads_row (some r) = refl

status_cols :
    (status : Text) (b : Bool) (o : Option (Row TaskCols))
    → cols_of (if b then apply_to (set_status status) o else o)
      ≡ (if b then map_status status (cols_of o) else cols_of o)
status_cols status true none = refl
status_cols status true (some r) = refl
status_cols status false o = refl

abbrev new_row : ComputeTask → ℤ → ℕ → Row TaskCols
new_row task now id = record { id = id; key = key_of task; created_at = now; cols = new_cols task }

fresh_at :
    (task : ComputeTask) (rows : List (Row TaskCols)) (j : Key)
    → find_row (key_of task) rows ≡ none
    → key_eq (key_of task) j ≡ true
    → find_row j rows ≡ none
fresh_at task rows j fresh at =
    subst (λ k. find_row k rows ≡ none) ((key_eq_iff (key_of task) j).0 at) fresh

appended :
    (task : ComputeTask) (now : ℤ) (id : ℕ) (j : Key) (o : Option (Row TaskCols))
    → (key_eq (key_of task) j ≡ true → o ≡ none)
    → cols_of (or_else o (find_row j (new_row task now id ∷ [])))
      ≡ (if key_eq (key_of task) j then some (new_cols task) else cols_of o)
unfolding find_row
appended task now id j o gone = elim (Bool-cases (key_eq (key_of task) j)) [
  | inl t ↦ rw (t, gone t) refl
  | inr f ↦ rw f (old o)
]
  where
    old : (o : Option (Row TaskCols)) → cols_of (or_else o none) ≡ cols_of o
    old none = refl
    old (some r) = refl

saves-Simulates :
    (task : ComputeTask) (now : ℤ) (db : Storage) → db.faults ≡ [] → Simulates (saves task now) db
unfolding concrete_call save_task
saves-Simulates task now db e = elim (Option-cases (find_row (key_of task) db.tasks.rows)) [
  | inl fresh ↦
      let has : has_key (key_of task) db.tasks.rows ≡ false =
        has_key-find_row (key_of task) db.tasks.rows ∙ rw fresh refl in
      rw (e, has, fresh)
        (
          refl,
          λ j.
              ap cols_of (find_row-append j db.tasks.rows _)
              ∙ appended task now db.tasks.next_id j (find_row j db.tasks.rows)
                  (fresh_at task db.tasks.rows j fresh),
          refl,
        )
  | inr (r, found) ↦
      let has : has_key (key_of task) db.tasks.rows ≡ true =
        has_key-find_row (key_of task) db.tasks.rows ∙ rw found refl in
      rw (e, has, found) (refl, λ j. refl, refl)
]

loads-Simulates : (k t : Text) (db : Storage) → db.faults ≡ [] → Simulates (loads k t) db
unfolding concrete_call load_task
loads-Simulates k t db e = rw e (loads_row (find_row (key k t) db.tasks.rows), λ j. refl, refl)

sets-Simulates :
    (k t status : Text) (db : Storage) → db.faults ≡ [] → Simulates (sets_status k t status) db
unfolding concrete_call update_status
sets-Simulates k t status db e = rw e (
  refl,
  λ j.
      ap cols_of (find_row-update_key j (key k t) (set_status status) (λ r. refl) db.tasks.rows)
      ∙ status_cols status (key_eq (key k t) j) (find_row j db.tasks.rows),
  refl,
)

call-Simulates : (c : Call) (db : Storage) → db.faults ≡ [] → Simulates c db
call-Simulates (saves task now) db e = saves-Simulates task now db e
call-Simulates (loads k t) db e = loads-Simulates k t db e
call-Simulates (sets_status k t status) db e = sets-Simulates k t status db e

abbrev pub concrete_calls : List Call → Storage → List Answer × Storage
concrete_calls [] db = ([], db)
concrete_calls (c ∷ cs) db =
    let (a, db1) = concrete_call c db in
    let (later, db2) = concrete_calls cs db1 in (a ∷ later, db2)

abbrev pub abstract_calls : List Call → TaskMap → List Answer × TaskMap
abstract_calls [] m = ([], m)
abstract_calls (c ∷ cs) m =
    let (a, m1) = abstract_call c m in let (later, m2) = abstract_calls cs m1 in (a ∷ later, m2)

abbrev Refined : List Call → Storage → TaskMap → Type 0
Refined cs db start =
    let (answers, m) = abstract_calls cs start in
    let (answers', db') = concrete_calls cs db in
    (answers' ≡ answers) × ((j : Key) → view db' j ≡ m j)

-- Any sequence of saves, loads and changes of status answers as the finite map does that the database
-- stood for at first, and leaves the database standing for the map that they leave.
pub calls_refine :
    (cs : List Call) (db : Storage)
    → db.faults ≡ []
    → let (answers, m) = abstract_calls cs (view db) in
      let (answers', db') = concrete_calls cs db in
      (answers' ≡ answers) × ((j : Key) → view db' j ≡ m j)
calls_refine [] db e = (refl, λ j. refl)
calls_refine (c ∷ cs) db e =
    let (same, after, e1) = call-Simulates c db e in
    let db1 = (concrete_call c db).1 in
    let m1 : view db1 ≡ (abstract_call c (view db)).1 = fun_ext after in
    let (rest, last) = subst (λ m. Refined cs db1 m) m1 (calls_refine cs db1 e1) in
    (
      ap (λ x. x ∷ (concrete_calls cs db1).0) same
          ∙ ap (λ xs. (abstract_call c (view db)).0 ∷ xs) rest,
      last,
    )
