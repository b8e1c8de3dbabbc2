-- ===== src/Address/Text.antt =====
-- address.go: the text of an address is read back.
use keys.Common.{
  List, [], ◌∷◌, ◌++◌, Bool, true, Str, str_ltb, str_ltb_irrefl, ok, ◌≡◌, ◌≢◌, refl, sym, ap, arith,
  ◌∙◌, All, str_ltb_trans, append-nil, append_assoc,
}
use keys.Common.Assoc.{Assoc}
use keys.Common.Sort.{sort, insert_sorted, IsSorted}
use keys.Common.Split.{join, split-join, Lacks}
use keys.Id.{parse_id, is_valid_id}
use keys.Address.{
  Address, new_address, fill_idmap, parse_recs, parse_saddrs, parse_address, strings, string,
}
use keys.Address.Canonical.{new_address-eq-ok, new_address-IsAddress, new_address-ids}

is_valid_id-parse_id : (s : Str) → is_valid_id s ≡ true → parse_id s ≡ ok s
unfolding is_valid_id parse_id
is_valid_id-parse_id [] h = ground arith
is_valid_id-parse_id (y ∷ s) h = ground arith

parse_recs_lem :
    (rs ids : List Str) → All (λ i. is_valid_id i ≡ true) rs → parse_recs rs ids ≡ ok (ids ++ rs)
unfolding parse_recs
parse_recs_lem [] ids _ = ap ok (sym (append-nil ids))
parse_recs_lem (r ∷ rs) ids (h, hs) =
    rw (parse_recs, is_valid_id-parse_id r h)
      (parse_recs_lem rs (ids ++ r ∷ []) hs ∙ ap ok (append_assoc ids (r ∷ []) rs))

insert_sorted-below :
    (k : Str) (ss : List Str) → All (λ t. str_ltb k t ≡ true) ss → insert_sorted k ss ≡ k ∷ ss
unfolding insert_sorted
insert_sorted-below k [] _ = refl
insert_sorted-below k (s ∷ ss) (h, hs) = ground (arith, str_ltb_trans k s k, str_ltb_irrefl k)

sort-sorted : (ss : List Str) → IsSorted ss → sort ss ≡ ss
unfolding sort
sort-sorted [] _ = refl
sort-sorted (s ∷ ss) (h, hs) = ap (insert_sorted s) (sort-sorted ss hs) ∙ insert_sorted-below s ss h

parse-join :
    (is : List Str) (idmap : Assoc Bool)
    → All (λ i. is_valid_id i ≡ true) is
    → All (Lacks b':') is
    → sort is ≡ is
    → fill_idmap is [] ≡ ok idmap
    → is ≢ []
    → parse_address (join is b':' ∷ []) ≡ ok (record { ids = is; idmap = idmap })
unfolding parse_address parse_saddrs new_address
parse-join [] idmap _ _ _ _ given = absurd (given refl)
parse-join (i ∷ is) idmap valid plain sorted filled given =
    rw
      (
        parse_address,
        parse_saddrs,
        split-join b':' i is plain,
        parse_recs_lem (i ∷ is) [] valid,
        new_address,
        sorted,
        filled,
      )
      refl

-- `ParseAddress` of the text of an address gives that address, if its identifiers are valid and
-- have no colon.
pub parse_address-string :
    (is : List Str) (a : Address)
    → new_address is ≡ ok a
    → All (λ i. is_valid_id i ≡ true) a.ids
    → All (Lacks b':') a.ids
    → parse_address (string a ∷ []) ≡ ok a
unfolding string strings
parse_address-string is a h valid plain =
    let (_, listed, filled) = new_address-eq-ok is a h in
    let sorted = (new_address-IsAddress is a h).ordered in
    parse-join a.ids a.idmap valid plain (sort-sorted a.ids sorted) filled (new_address-ids is a h)
