-- ===== src/Document/Growth.antt =====
-- integrateInsert on a valid document, for whatever two elements its identifiers name.
use mathlib.Core.Path.{subst}
use mathlib.Core.List.{append_assoc}
use yata_collaborative_edito.Base.{
  ℕ, ◌≡◌, ◌≢◌, ◌∙◌, sym, ap, true, false, inl, inr, List, [], ◌∷◌, ◌++◌, arith, if◌then◌else◌, has,
  has-append, has-middle, last_of, insert, lookup-insert, ok, Settles, has-weaken,
}
use yata_collaborative_edito.Identifier.{ElementId, id_eq, id_Eq}
use yata_collaborative_edito.Document.{Ptr, null, Document, element_at}
use yata_collaborative_edito.Document.Update.{integrate_insert}
use yata_collaborative_edito.Document.Valid.{nodes, IsValid, element_at-has, element_at-null}
use yata_collaborative_edito.Document.Integration.{Integrated, integrate_insert-Integrated}
use yata_collaborative_edito.Document.Reversed.{
  node_cases, rest_cases, integrate_insert_end, integrate_insert_reversed,
}

-- What an integrated insertion leaves of the document.
pub record Grown (d : Document) (cs : List Ptr) (id : ElementId) (d' : Document) : Type 0 where
  pub chain : List Ptr
  pub valid : IsValid d' chain
  pub maps : d'.elements_by_id ≡ insert id d.allocated d.elements_by_id
  pub added : has d.allocated chain ≡ true
  pub kept : (q : Ptr) → has q cs ≡ true → has q chain ≡ true
  pub live : (d'.memory d.allocated).is_deleted ≡ false
  pub marks : (q : Ptr) → has q cs ≡ true → (d'.memory q).is_deleted ≡ (d.memory q).is_deleted
  pub keeps :
      (d'.pending_inserts ≡ d.pending_inserts)
      × (d'.pending_deletes ≡ d.pending_deletes)
      × (d'.delete_log ≡ d.delete_log)

grown_chain :
    (p q : Ptr) (xs passed kept zs : List Ptr)
    → has q (xs ++ ((passed ++ kept) ++ zs)) ≡ true
    → has q ((xs ++ passed) ++ p ∷ (kept ++ zs)) ≡ true
grown_chain p q xs passed kept zs h =
    has-weaken q p (xs ++ passed) (kept ++ zs) (subst (λ ns. has q ns ≡ true) (simp append_assoc) h)

node_of : (d : Document) (cs : List Ptr) (q : Ptr) → has q cs ≡ true → has q (nodes d cs) ≡ true
node_of d cs q h = ground (arith, has-append q cs (d.end ∷ []))

Integrated-Grown :
    {d : Document} {xs mid zs : List Ptr} {id : ElementId} {content : ℕ}
    (r : Integrated d xs mid zs id content)
    → Grown d (xs ++ (mid ++ zs)) id r.after
Integrated-Grown {d} {xs} {mid} {zs} r = record {
  chain = (xs ++ r.settled.passed) ++ d.allocated ∷ (r.settled.kept ++ zs);
  valid = r.valid;
  maps = r.maps;
  added = has-middle d.allocated (xs ++ r.settled.passed) (r.settled.kept ++ zs);
  kept = λ q h.
      grown_chain d.allocated q xs r.settled.passed r.settled.kept zs
        (subst (λ ns. has q (xs ++ (ns ++ zs)) ≡ true) r.settled.splits h);
  live = ap (λ c. c.is_deleted) r.new.0;
  marks = λ q h. ap (λ c. c.is_deleted) (r.old q (node_of d (xs ++ (mid ++ zs)) q h)).0;
  keeps = r.keeps;
}

module _ {d : Document} {cs : List Ptr} (id origin_id right_id : ElementId) (content : ℕ) where
  -- Of two elements of the list, `integrateInsert` of a new identifier between them leaves a
  -- valid document with one element more, or faults.
  pub integrate_insert-Grown :
      IsValid d cs
      → element_at d id ≡ null
      → element_at d origin_id ≢ null
      → element_at d right_id ≢ null
      → Settles (Grown d cs id) (integrate_insert d id origin_id right_id content)
  integrate_insert-Grown v unused o r =
      let (o_has, o_named, _) = element_at-has origin_id v o in
      let (r_has, r_named, _) = element_at-has right_id v r in
      elim (node_cases d cs (element_at d origin_id) o_has) [
        | inl last ↦
            subst (Settles (Grown d cs id))
              (sym (integrate_insert_end id origin_id right_id content v last r)) tt
        | inr (xs, rest, split, at) ↦ elim (rest_cases d.end rest (element_at d right_id)) [
          | inr lost ↦
              subst (Settles (Grown d cs id))
                (sym (
                  integrate_insert_reversed id origin_id right_id content xs rest
                    (subst (IsValid d) split v) at r lost))
                tt
          | inl (mid, zs, split', at') ↦
              let whole = split ∙ ap (◌++◌ xs) split' in
              let result =
                integrate_insert-Integrated xs mid zs id content (subst (IsValid d) whole v)
                  (element_at-null id v unused) in
              let o_id = sym (ap (λ q. (d.memory q).element_id) at) ∙ o_named in
              let r_id = sym (ap (λ q. (d.memory q).element_id) at') ∙ r_named in
              subst (Settles (Grown d cs id))
                (sym (
                  subst (λ i. integrate_insert d id i right_id content ≡ ok result.after) o_id
                    (subst
                      (λ i.
                        integrate_insert d id (d.memory (last_of d.start xs)).element_id i content
                        ≡ ok result.after)
                      r_id result.runs)))
                (subst (λ ns. Grown d ns id result.after) (sym whole) (Integrated-Grown result))
        ]
      ]

module _ {d d' : Document} {cs : List Ptr} {id : ElementId} (g : Grown d cs id d') where
  -- The map finds the new element by its identifier, and the others as before.
  pub Grown-element_at :
      (k : ElementId) → element_at d' k ≡ (if id_eq id k then d.allocated else element_at d k)
  unfolding element_at
  Grown-element_at k = ground (arith, g.maps, lookup-insert id k d.allocated d.elements_by_id)
