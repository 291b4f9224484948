-- ===== src/Patch/Index.antt =====
-- Lemmas on the staged files and their index (src/toolpatch.rs).
use stavlos.Common.{
  ℕ, zero, suc, Text, text_eq, text_eq_iff, true, false, Option, none, some, List, [], ◌∷◌, ◌++◌,
  length, get_elem?, if◌then◌else◌, ◌≡◌, refl, arith,
}
use stavlos.Common.Map.{get}
use stavlos.Patch.Types.{Staged, Plan}
use stavlos.Patch.Stage.{update_at}
use stavlos.Patch.Spec.{Entry, file, nothing}

-- The position of the first file with a path.
unfoldable pub index_of : List Staged → Text → Option ℕ
index_of [] q = none
index_of (f ∷ fs) q =
    if text_eq f.path q
    then some 0
    else elim (index_of fs q) [ none ↦ none | some i ↦ some (suc i) ]

unfoldable pub staged_entry : Staged → Entry
staged_entry f = if f.exists_ then file f.content else nothing

-- What the staged files make of a path that holds `d` on disk.
unfoldable pub overlay : List Staged → Text → Entry → Entry
overlay [] q d = d
overlay (f ∷ fs) q d = if text_eq f.path q then staged_entry f else overlay fs q d

-- The index finds each path where the list of files has it.
unfoldable pub IsIndexed : Plan → Type 0
IsIndexed p = (q : Text) → get p.indices q ≡ index_of p.files q

index_of-zero :
    (f : Staged) (fs : List Staged) (q : Text)
    → index_of (f ∷ fs) q ≡ some 0
    → text_eq f.path q ≡ true
unfolding index_of
index_of-zero f fs q h = ground arith

index_of-suc :
    (f : Staged) (fs : List Staged) (q : Text) (i : ℕ)
    → index_of (f ∷ fs) q ≡ some (suc i)
    → (text_eq f.path q ≡ false) × (index_of fs q ≡ some i)
unfolding index_of
index_of-suc f fs q i h = ground arith

-- The file with a path is the one that the index finds.
pub get_elem-index_of :
    (fs : List Staged) (q : Text) (i : ℕ)
    → index_of fs q ≡ some i
    → (f : Staged) × (get_elem? fs i ≡ some f)
      × (f.path ≡ q)
      × ((d : Entry) → overlay fs q d ≡ staged_entry f)
unfolding index_of overlay
get_elem-index_of [] q i h = ground arith
get_elem-index_of (f ∷ fs) q zero h =
    let e = index_of-zero f fs q h in (f, refl, (text_eq_iff f.path q).0 e, λ d. rw e refl)
get_elem-index_of (f ∷ fs) q (suc i) h =
    let (e, g) = index_of-suc f fs q i h in
    let (x, a, b, c) = get_elem-index_of fs q i g in (x, a, b, λ d. rw e (c d))

pub overlay-absent :
    (fs : List Staged) (q : Text) (d : Entry) → index_of fs q ≡ none → overlay fs q d ≡ d
unfolding index_of overlay
overlay-absent [] q d h = refl
overlay-absent (f ∷ fs) q d h = ground (arith, overlay-absent fs q d)

-- A change to a file that keeps its path leaves the index.
pub index_of-update_at :
    (fs : List Staged) (i : ℕ) (g : Staged → Staged) (q : Text)
    → ((f : Staged) → (g f).path ≡ f.path)
    → index_of (update_at fs i g) q ≡ index_of fs q
unfolding index_of update_at
index_of-update_at [] i g q h = refl
index_of-update_at (f ∷ fs) zero g q h = rw (h f) refl
index_of-update_at (f ∷ fs) (suc i) g q h = rw (index_of-update_at fs i g q h) refl

-- It changes the view of that path only.
pub overlay-update_at :
    (fs : List Staged) (i : ℕ) (g : Staged → Staged) (f : Staged) (p q : Text) (d : Entry)
    → ((f : Staged) → (g f).path ≡ f.path)
    → index_of fs p ≡ some i
    → get_elem? fs i ≡ some f
    → overlay (update_at fs i g) q d ≡ (if text_eq p q then staged_entry (g f) else overlay fs q d)
unfolding index_of update_at overlay
overlay-update_at [] i g f p q d k h e = ground arith
overlay-update_at (x ∷ fs) zero g f p q d k h e =
    ground (arith, index_of-zero x fs p h, text_eq_iff x.path p, k x)
overlay-update_at (x ∷ fs) (suc i) g f p q d k h e =
    let (a, b) = index_of-suc x fs p i h in
    ground (
      arith,
      text_eq_iff x.path q,
      text_eq_iff p q,
      text_eq_iff x.path p,
      overlay-update_at fs i g f p q d k b e,
    )

pub index_of-push :
    (fs : List Staged) (f : Staged) (q : Text)
    → index_of (fs ++ (f ∷ [])) q ≡ elim (index_of fs q) [
      | some i ↦ some i
      | none ↦ if text_eq f.path q then some (length fs) else none
    ]
unfolding index_of
index_of-push [] f q = refl
index_of-push (x ∷ fs) f q = ground (arith, index_of-push fs f q)

pub overlay-push :
    (fs : List Staged) (f : Staged) (q : Text) (d : Entry)
    → index_of fs f.path ≡ none
    → overlay (fs ++ (f ∷ [])) q d ≡ (if text_eq f.path q then staged_entry f else overlay fs q d)
unfolding index_of overlay
overlay-push [] f q d h = refl
overlay-push (x ∷ fs) f q d h = ground (
  arith,
  text_eq_iff x.path q,
  text_eq_iff f.path q,
  text_eq_iff x.path f.path,
  overlay-push fs f q d,
)
