-- ===== src/Timeline/Order.antt =====
-- The order of the entries of a timeline.
use destiny1_pc_project.Prelude.{
  ℕ, ◌+◌, ◌*◌, ◌<◌, ◌≤◌, ◌≡◌, refl, sym, ap, ◌∙◌, true, false, inl, inr, List, [], ◌∷◌, ◌++◌, map,
  append-nil, append_assoc, arith, All, ◌==◌, ltb, leb, subst, if◌then◌else◌, Bool-cases,
}
use destiny1_pc_project.Codec.{Direction}
use destiny1_pc_project.Evidence.{EvidenceRecord}
use destiny1_pc_project.Timeline.{
  TimelineEntry, Timeline, direction_order, key_leb, insert_entry, sort_by_key, entry_of, push,
  sort, from_evidence,
}

-- The time and the direction as one number.
abbrev pub rank_of : ℕ → Direction → ℕ
rank_of time Direction.client_to_server = 2 * time
rank_of time Direction.server_to_client = 2 * time + 1

abbrev pub rank : TimelineEntry → ℕ
rank e = rank_of e.timestamp_ms e.direction

abbrev pub IsSorted : List TimelineEntry → Type 0
IsSorted [] = Unit
IsSorted (e ∷ es) = All (λ x. rank e ≤ rank x) es × IsSorted es

-- The entries of one time and direction, in order.
abbrev pub at_key : ℕ → Direction → List TimelineEntry → List TimelineEntry
at_key t d [] = []
at_key t d (e ∷ es) = let rest = at_key t d es in if rank e == rank_of t d then e ∷ rest else rest

rank_of_lem :
    (t u : ℕ) (d d' : Direction)
    → (if ltb t u
        then true
        else if t == u
        then leb (direction_order d) (direction_order d')
        else false)
      ≡ leb (rank_of t d) (rank_of u d')
unfolding direction_order
rank_of_lem t u Direction.client_to_server Direction.client_to_server = ground arith
rank_of_lem t u Direction.client_to_server Direction.server_to_client = ground arith
rank_of_lem t u Direction.server_to_client Direction.client_to_server = ground arith
rank_of_lem t u Direction.server_to_client Direction.server_to_client = ground arith

key_leb-rank : (a b : TimelineEntry) → key_leb a b ≡ leb (rank a) (rank b)
unfolding key_leb
key_leb-rank a b = rank_of_lem a.timestamp_ms b.timestamp_ms a.direction b.direction

All-weaker :
    (m n : ℕ) (es : List TimelineEntry)
    → m ≤ n
    → All (λ x. n ≤ rank x) es
    → All (λ x. m ≤ rank x) es
All-weaker m n [] h hs = tt
All-weaker m n (e ∷ es) h (k, ks) = (omega arith, All-weaker m n es h ks)

All-insert_entry :
    (m : ℕ) (e : TimelineEntry) (es : List TimelineEntry)
    → m ≤ rank e
    → All (λ x. m ≤ rank x) es
    → All (λ x. m ≤ rank x) (insert_entry e es)
unfolding insert_entry
All-insert_entry m e [] h hs = (h, tt)
All-insert_entry m e (x ∷ xs) h (k, ks) =
    let later = All-insert_entry m e xs h ks in
    elim (Bool-cases (key_leb e x)) [
      | inl y ↦
          subst (λ b. All (λ z. m ≤ rank z) (if b then e ∷ x ∷ xs else x ∷ insert_entry e xs))
            (sym y) (h, (k, ks))
      | inr n ↦
          subst (λ b. All (λ z. m ≤ rank z) (if b then e ∷ x ∷ xs else x ∷ insert_entry e xs))
            (sym n) (k, later)
    ]

insert_entry-IsSorted :
    (e : TimelineEntry) (es : List TimelineEntry) → IsSorted es → IsSorted (insert_entry e es)
unfolding insert_entry
insert_entry-IsSorted e [] hs = (tt, tt)
insert_entry-IsSorted e (x ∷ xs) (h, hs) = elim (Bool-cases (key_leb e x)) [
  | inl y ↦
      let le : rank e ≤ rank x = ground (arith, key_leb-rank e x) in
      subst (λ b. IsSorted (if b then e ∷ x ∷ xs else x ∷ insert_entry e xs)) (sym y)
        ((le, All-weaker (rank e) (rank x) xs le h), (h, hs))
  | inr n ↦
      let le : rank x ≤ rank e = ground (arith, key_leb-rank e x) in
      subst (λ b. IsSorted (if b then e ∷ x ∷ xs else x ∷ insert_entry e xs)) (sym n)
        (All-insert_entry (rank x) e xs le h, insert_entry-IsSorted e xs hs)
]

sort_by_key-IsSorted : (es : List TimelineEntry) → IsSorted (sort_by_key es)
unfolding sort_by_key
sort_by_key-IsSorted [] = tt
sort_by_key-IsSorted (e ∷ es) = insert_entry-IsSorted e (sort_by_key es) (sort_by_key-IsSorted es)

at_key-insert_entry :
    (t : ℕ) (d : Direction) (e : TimelineEntry) (es : List TimelineEntry)
    → at_key t d (insert_entry e es) ≡ at_key t d (e ∷ es)
unfolding insert_entry
at_key-insert_entry t d e [] = refl
at_key-insert_entry t d e (x ∷ xs) = ground (arith, key_leb-rank e x, at_key-insert_entry t d e xs)

at_key-sort_by_key :
    (t : ℕ) (d : Direction) (es : List TimelineEntry) → at_key t d (sort_by_key es) ≡ at_key t d es
unfolding sort_by_key
at_key-sort_by_key t d [] = refl
at_key-sort_by_key t d (e ∷ es) =
    ground (arith, at_key-insert_entry t d e (sort_by_key es), at_key-sort_by_key t d es)

-- A timeline made of records is in the order of time, on ties the client before the server, and holds for
-- each time and direction the entries of just those records, in the order of the records.
pub from_evidence-IsSorted :
    (records : List EvidenceRecord)
    → IsSorted (from_evidence records).entries
      × ((t : ℕ) (d : Direction)
          → at_key t d (from_evidence records).entries ≡ at_key t d (map entry_of records))
unfolding from_evidence
from_evidence-IsSorted records = (
  sort_by_key-IsSorted (map entry_of records),
  λ t d. at_key-sort_by_key t d (map entry_of records),
)

at_key-append :
    (t : ℕ) (d : Direction) (es fs : List TimelineEntry)
    → at_key t d (es ++ fs) ≡ at_key t d es ++ at_key t d fs
at_key-append t d [] fs = refl
at_key-append t d (e ∷ es) fs = ground (arith, at_key-append t d es fs)

at_key-absent :
    (t : ℕ) (d : Direction) (m : ℕ) (es : List TimelineEntry)
    → rank_of t d < m
    → All (λ x. m ≤ rank x) es
    → at_key t d es ≡ []
at_key-absent t d m [] h hs = refl
at_key-absent t d m (e ∷ es) h (k, ks) = ground (arith, at_key-absent t d m es h ks)

head_at_key :
    (e : TimelineEntry) (es : List TimelineEntry)
    → at_key e.timestamp_ms e.direction (e ∷ es) ≡ e ∷ at_key e.timestamp_ms e.direction es
head_at_key e es = ground arith

-- A sorted list is settled by its entries of each time and direction.
heads_agree :
    (x y : TimelineEntry) (xs ys : List TimelineEntry)
    → IsSorted (x ∷ xs)
    → IsSorted (y ∷ ys)
    → at_key x.timestamp_ms x.direction (x ∷ xs) ≡ at_key x.timestamp_ms x.direction (y ∷ ys)
    → rank y ≤ rank x
heads_agree x y xs ys (h, hs) (k, ks) same = elim (Bool-cases (ltb (rank x) (rank y))) [
  | inl l ↦
      let none_there =
        at_key-absent x.timestamp_ms x.direction (rank y) (y ∷ ys) (ground (arith, l))
          (omega arith, k) in
      absurd (ground (arith, head_at_key x xs, none_there))
  | inr l ↦ ground (arith, l)
]

tails_agree :
    (t : ℕ) (d : Direction) (x : TimelineEntry) (xs ys : List TimelineEntry)
    → at_key t d (x ∷ xs) ≡ at_key t d (x ∷ ys)
    → at_key t d xs ≡ at_key t d ys
tails_agree t d x xs ys same = ground (arith, same)

IsSorted-unique :
    (xs ys : List TimelineEntry)
    → IsSorted xs
    → IsSorted ys
    → ((t : ℕ) (d : Direction) → at_key t d xs ≡ at_key t d ys)
    → xs ≡ ys
IsSorted-unique [] [] h k same = refl
IsSorted-unique [] (y ∷ ys) h k same =
    absurd (ground (arith, head_at_key y ys, same y.timestamp_ms y.direction))
IsSorted-unique (x ∷ xs) [] h k same =
    absurd (ground (arith, head_at_key x xs, same x.timestamp_ms x.direction))
IsSorted-unique (x ∷ xs) (y ∷ ys) h k same =
    let le = heads_agree x y xs ys h k (same x.timestamp_ms x.direction) in
    let ge = heads_agree y x ys xs k h (sym (same y.timestamp_ms y.direction)) in
    let head : x ≡ y = ground (arith, head_at_key x xs, same x.timestamp_ms x.direction, le, ge) in
    let tail =
      IsSorted-unique xs ys h.1 k.1
        (λ t d. tails_agree t d x xs ys (same t d ∙ ap (λ z. at_key t d (z ∷ ys)) (sym head))) in
    ground (arith, head, tail)

abbrev pub push_all : Timeline → List TimelineEntry → Timeline
push_all t [] = t
push_all t (e ∷ es) = push_all (push t e) es

entries-push_all :
    (t : Timeline) (es : List TimelineEntry) → (push_all t es).entries ≡ t.entries ++ es
unfolding push
entries-push_all t [] = sym (append-nil t.entries)
entries-push_all t (e ∷ es) = entries-push_all (push t e) es ∙ append_assoc t.entries (e ∷ []) es

sort-push_all :
    (t : Timeline) (es : List TimelineEntry) → sort (push_all (sort t) es) ≡ sort (push_all t es)
unfolding sort
sort-push_all t es =
    let both = λ (u : Timeline). entries-push_all u es in
    let same =
      IsSorted-unique (sort_by_key (sort_by_key t.entries ++ es)) (sort_by_key (t.entries ++ es))
        (sort_by_key-IsSorted (sort_by_key t.entries ++ es))
        (sort_by_key-IsSorted (t.entries ++ es))
        (λ s d.
          at_key-sort_by_key s d (sort_by_key t.entries ++ es)
          ∙ at_key-append s d (sort_by_key t.entries) es
          ∙ ap (λ z. z ++ at_key s d es) (at_key-sort_by_key s d t.entries)
          ∙ sym (at_key-append s d t.entries es)
          ∙ sym (at_key-sort_by_key s d (t.entries ++ es))) in
    ap (λ z. record { entries = sort_by_key z }) (both (sort t))
    ∙ ap (λ z. record { entries = z }) same
    ∙ ap (λ z. record { entries = sort_by_key z }) (sym (both t))

-- A timeline that is sorted behind pushes is in the order of time, on ties the client before the server, and holds
-- for each time and direction the entries that it held before the pushes and behind them those that were pushed, in the
-- order of the pushes; had it been sorted before the pushes, it would end as the same timeline.
pub sort-push_all-IsSorted :
    (t : Timeline) (es : List TimelineEntry)
    → IsSorted (sort (push_all t es)).entries
      × ((s : ℕ) (d : Direction)
          → at_key s d (sort (push_all t es)).entries ≡ at_key s d t.entries ++ at_key s d es)
      × (sort (push_all (sort t) es) ≡ sort (push_all t es))
unfolding sort
sort-push_all-IsSorted t es = (
  sort_by_key-IsSorted (push_all t es).entries,
  λ s d.
      at_key-sort_by_key s d (push_all t es).entries
      ∙ ap (at_key s d) (entries-push_all t es)
      ∙ at_key-append s d t.entries es,
  sort-push_all t es,
)
