-- ===== src/Audit/Verdict/Structs.antt =====
-- compare_single_struct and compare_structs: a struct breaks if it is gone or its members break.
use sparsam.Base.{
  Text, is_empty, ◌≡◌, sym, ◌∙◌, Bool, true, ◌||◌, List, [], ◌∷◌, Option, none, some, any, All,
  OptAll, find-index, last_named, last_named-All, or_assoc, or-false, or-true, if◌then◌else◌,
  text_key,
}
use sparsam.Parse.Types.{Struct, Store}
use sparsam.Audit.Log.{Log}
use sparsam.Audit.Structs.{compare_single_struct, compare_struct_named, compare_structs}
use sparsam.Audit.Verdict.Flag.{flagged, flagged-failure}
use sparsam.Parse.Members.Sorted.{IsSorted}
use sparsam.Audit.Verdict.Members.{members_break, flagged-compare_members}

abbrev pub IsSortedStruct : Struct → Type 0
IsSortedStruct t = IsSorted t.members_in_id_order

module _ (st : Store) where
  unfoldable pub struct_breaks : Option Struct → Struct → Bool
  struct_breaks none old = true
  struct_breaks (some new) old = members_break st new.members_in_id_order old.members_in_id_order

  unfoldable pub structs_break : List Struct → List Struct → Bool
  structs_break news olds =
      any (λ o. struct_breaks (last_named (λ n. n.name) o.name none news) o) olds

  pub flagged-compare_single_struct :
      (new old : Struct) (name : Text) (s : Log)
      → IsSortedStruct new
      → IsSortedStruct old
      → flagged (compare_single_struct st new old name s)
        ≡ (flagged s || members_break st new.members_in_id_order old.members_in_id_order)
  unfolding compare_single_struct
  flagged-compare_single_struct new old name s a b =
      flagged-compare_members st new.members_in_id_order old.members_in_id_order
        (if is_empty name then old.name else name) s a b

  flagged-compare_struct_named :
      (new : Option Struct) (old : Struct) (s : Log)
      → OptAll IsSortedStruct new
      → IsSortedStruct old
      → flagged (compare_struct_named st new old s) ≡ (flagged s || struct_breaks new old)
  unfolding compare_struct_named struct_breaks
  flagged-compare_struct_named none old s a b = rw flagged-failure (sym (or-true (flagged s)))
  flagged-compare_struct_named (some new) old s a b = flagged-compare_single_struct new old [] s a b

  -- The comparison of two lists of structs whose members are sorted by id raises the failure flag,
  -- where it was not up before, exactly when a struct of the old list has no struct of its name in
  -- the new one, or its members break against the last one of that name.
  pub flagged-compare_structs :
      (news olds : List Struct) (s : Log)
      → All IsSortedStruct news
      → All IsSortedStruct olds
      → flagged (compare_structs st news olds s) ≡ (flagged s || structs_break news olds)
  unfolding compare_structs structs_break
  flagged-compare_structs news [] s a b = sym (or-false (flagged s))
  flagged-compare_structs news (o ∷ os) s a b =
      flagged-compare_structs news os _ a b.1
      ∙ rw
          (
            find-index (λ (n : Struct). n.name) o.name news,
            flagged-compare_struct_named (last_named (λ n. n.name) o.name none news) o s
                (last_named-All (λ n. n.name) IsSortedStruct o.name none news a tt) b.0,
          )
          (or_assoc (flagged s) (struct_breaks (last_named (λ n. n.name) o.name none news) o)
            (structs_break news os))
