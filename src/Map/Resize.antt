-- ===== src/Map/Resize.antt =====
-- `resizeMap`: every entry of the old table goes into a new one.
use mathlib.Core.Path.{subst}
use rust_wren.Base.{
  ℕ, suc, ◌+◌, ◌<◌, ◌≡◌, refl, ap, ◌∙◌, inl, inr, List, [], ◌∷◌, Bool, true, false, Option, none,
  some, arith, if◌then◌else◌, length, get_elem?, Bool-cases, Option-cases,
}
use rust_wren.Value.Equal.{values_equal}
use rust_wren.Value.Equal.Laws.{Lawful, values_equal_symm, values_equal_trans}
use rust_wren.Value.{Heap, Value, is_undefined}
use rust_wren.Map.{Entry, reinsert, insert_entry}
use rust_wren.Map.Table.{IsLive, IsTable, Reads, scan, scan-Reads}
use rust_wren.Map.Write.{live_count}
use rust_wren.Map.Insert.{insert_entry-Inserted}

abbrev pub or_else : {A : Type 0} → Option A → Option A → Option A
or_else none o = o
or_else (some v) o = some v

module _ (heap : Heap) where
  -- The entries that are still to be added: lawful keys, all different.
  pub record IsSource (old : List Entry) : Type 0 where
    pub lawful :
        (i : ℕ) (entry : Entry)
        → get_elem? old i ≡ some entry
        → IsLive entry
        → Lawful heap entry.key
    pub unique :
        (i j : ℕ) (a b : Entry)
        → get_elem? old i ≡ some a
        → get_elem? old j ≡ some b
        → IsLive a
        → IsLive b
        → values_equal heap a.key b.key ≡ true
        → i ≡ j

  IsSource-tail : (entry : Entry) (old : List Entry) → IsSource (entry ∷ old) → IsSource old
  IsSource-tail entry old s = record {
    lawful = λ i. s.lawful (suc i);
    unique = λ i j a b h h' l l' e. omega (arith, s.unique (suc i) (suc j) a b h h' l l' e);
  }

  pub IsTable-IsSource : (entries : List Entry) → IsTable heap entries → IsSource entries
  IsTable-IsSource entries t = record {
    lawful = λ i entry h l. (t.placed i entry h l).lawful;
    unique = t.unique;
  }

  -- The head of a source is not equal to a later key.
  head_apart :
      (entry : Entry) (old : List Entry)
      → IsSource (entry ∷ old)
      → IsLive entry
      → (i : ℕ) (a : Entry) → get_elem? old i ≡ some a
      → IsLive a
      → values_equal heap entry.key a.key ≡ false
  head_apart entry old s live i a h l = elim (Bool-cases (values_equal heap entry.key a.key)) [
    | inr e ↦ e
    | inl e ↦ absurd (omega (arith, s.unique 0 (suc i) entry a refl h live l e))
  ]

  scan_tail :
      (entry : Entry) (old : List Entry) (q : Value)
      → IsSource (entry ∷ old)
      → IsLive entry
      → values_equal heap entry.key q ≡ true
      → scan heap old q ≡ none
  scan_tail entry old q s live e = elim (Option-cases (scan heap old q)) [
    | inl h ↦ h
    | inr (v, h) ↦
        let (i, a, there, l, e', value) = subst (Reads heap old q) h (scan-Reads heap old q) in
        cc (
          head_apart entry old s live i a there l,
          values_equal_trans heap entry.key q a.key e (values_equal_symm heap a.key q e'),
        )
  ]

  scan_head :
      (entry : Entry) (old : List Entry) (q v : Value) (o : Option Value)
      → entry.value ≡ v
      → IsSource (entry ∷ old)
      → IsLive entry
      → or_else (scan heap old q) (if values_equal heap entry.key q then some v else o)
        ≡ or_else (scan heap (entry ∷ old) q) o
  scan_head entry old q v o is_v s live = elim (Bool-cases (values_equal heap entry.key q)) [
    | inl e ↦ rw (e, live, scan_tail entry old q s live e, is_v)
    | inr e ↦ rw (e, live)
  ]

  -- `result` holds what `entries` and `old` hold together.
  pub record Merged (entries old result : List Entry) : Type 0 where
    pub table : IsTable heap result
    pub size : length result ≡ length entries
    pub live : live_count result ≡ live_count entries + live_count old
    pub reads :
        (q : Value) (o : Option Value)
        → Reads heap entries q o
        → Reads heap result q (or_else (scan heap old q) o)

  reinsert_dead :
      (entries : List Entry) (capacity : ℕ) (e : Entry) (old : List Entry)
      → is_undefined e.key ≡ true
      → reinsert heap entries capacity (e ∷ old) ≡ reinsert heap entries capacity old
  unfolding reinsert
  reinsert_dead entries capacity e old dead = rw dead

  reinsert_live :
      (entries : List Entry) (capacity : ℕ) (e : Entry) (old : List Entry) {r : List Entry × Bool}
      → IsLive e
      → insert_entry heap entries capacity e.key e.value ≡ some r
      → reinsert heap entries capacity (e ∷ old) ≡ reinsert heap r.0 capacity old
  unfolding reinsert
  reinsert_live entries capacity e old live run = rw (live, run)

  pub reinsert-Merged :
      (old entries : List Entry)
      → IsTable heap entries
      → IsSource old
      → ((i : ℕ) (a : Entry) → get_elem? old i ≡ some a → IsLive a → Reads heap entries a.key none)
      → live_count entries + live_count old < length entries
      → (result : List Entry) × (reinsert heap entries (length entries) old ≡ some result)
        × Merged entries old result
  reinsert-Merged [] entries t s apart room = (
    entries,
    (unfold reinsert in refl),
    record { table = t; size = refl; live = omega arith; reads = λ q o r. r },
  )
  reinsert-Merged (e ∷ old) entries t s apart room = elim (Bool-cases (is_undefined e.key)) [
    | inl dead ↦
        let (result, run, m) =
          reinsert-Merged old entries t (IsSource-tail e old s) (λ i. apart (suc i))
            (ground arith) in
        (
          result,
          reinsert_dead entries (length entries) e old dead ∙ run,
          record {
            table = m.table;
            size = m.size;
            live = ground (arith, m.live);
            reads = λ q o r. rw dead (m.reads q o r);
          },
        )
    | inr live ↦
        let (entries₁, is_new, run₁, ins) =
          insert_entry-Inserted heap entries e.key e.value t (s.lawful 0 e refl live) live
            (ground arith) in
        let new_key = ins.fresh (apart 0 e refl live) in
        let counted : live_count entries₁ ≡ live_count entries + 1 =
          ins.live ∙ ap (λ b. live_count entries + (if b then 1 else 0)) new_key in
        let (result, run, m) =
          reinsert-Merged old entries₁ ins.table (IsSource-tail e old s)
            (λ i a h l.
              let r = ins.reads a.key none (apart (suc i) a h l) in
              rw (head_apart e old s live i a h l) at r)
            (ground (arith, ins.size)) in
        (
          result,
          reinsert_live entries (length entries) e old live run₁ ∙ rw ins.size at run,
          record {
            table = m.table;
            size = m.size ∙ ins.size;
            live = ground (arith, m.live);
            reads = λ q o r.
                rw (← scan_head e old q e.value o refl s live) (m.reads q _ (ins.reads q o r));
          },
        )
  ]
