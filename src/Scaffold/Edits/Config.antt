-- ===== src/Scaffold/Edits/Config.antt =====
-- What injectConfigEntry does to configs/config.yaml.
use web_template_go.Prelude.{
  ℕ, ◌+◌, [], ◌∷◌, ◌++◌, true, false, some, ◌≡◌, refl, sym, ◌∙◌, ap, arith, inl, inr, Bool-cases,
  Option-cases, append_assoc, drop, length, subst, All-append, ◌≢◌, drop-length, length-append, ap₂,
  take-length,
}
use web_template_go.Text.{
  Bytes, bytes, Occurs, contains, contains_iff, index, trim_right, Lacks, index-Lacks,
}
use web_template_go.Scaffold.ProtoPath.{base_name}
use web_template_go.Scaffold.Edits.{
  keep, write, insert_at, config_entry, config_block, add_block, inject_config_entry,
}
use web_template_go.Scaffold.Edits.Insert.{insert_at-Inserted, Occurs-Inserted}

Occurs-config_block : (base : Bytes) → Occurs (config_block base) (config_entry base)
unfolding config_block
Occurs-config_block base = ([], _, refl)

-- The block is put in whole; before it, a line break if the file ends with "remote_grpc:".
add_block-Occurs :
    (str : Bytes) (idx : ℕ) (block sub : Bytes)
    → Occurs block sub
    → Occurs (add_block str idx block) sub
unfolding add_block
add_block-Occurs str idx block sub (a, b, e) =
    elim (Option-cases (index (drop idx str) (bytes "\n"))) [
      | inl n ↦ rw (add_block, n) (str ++ (bytes "\n" ++ a), b, rw e (simp append_assoc))
      | inr (eol, f) ↦
          rw (add_block, f)
            (Occurs-Inserted sub (insert_at-Inserted (idx + eol + 1) block str) (a, b, e))
    ]

write-eq : (a b : Bytes) → write a ≡ write b → a ≡ b
write-eq a b h = cc

written :
    (str proto_rel new : Bytes)
    → inject_config_entry str proto_rel ≡ write new
    → Occurs new (config_entry (base_name proto_rel))
unfolding inject_config_entry
written str proto_rel new h =
    let base = base_name proto_rel in
    let entry = config_entry base in
    let block = config_block base in
    let (a, b, e) = Occurs-config_block base in
    elim (Bool-cases (contains str entry)) [
      | inl c ↦ ground arith
      | inr c ↦ elim (Option-cases (index str (bytes "remote_grpc:"))) [
        | inl n ↦
            let head = trim_right str (bytes "\n") ++ bytes "\n\nremote_grpc:\n" in
            let k : write (trim_right str (bytes "\n") ++ (bytes "\n\nremote_grpc:\n" ++ block))
                ≡ write new =
              rw (c, n) at h in
            (
              head ++ a,
              b,
              sym (write-eq _ _ k)
                  ∙ ap (λ u. trim_right str (bytes "\n") ++ (bytes "\n\nremote_grpc:\n" ++ u)) e
                  ∙ simp append_assoc,
            )
        | inr (idx, f) ↦
            let k : write (add_block str idx block) ≡ write new = rw (c, f) at h in
            subst (λ u. Occurs u entry) (write-eq _ _ k)
              (add_block-Occurs str idx block entry (a, b, e))
      ]
    ]

known :
    (str proto_rel : Bytes)
    → contains str (config_entry (base_name proto_rel)) ≡ true
    → inject_config_entry str proto_rel ≡ keep
unfolding inject_config_entry
known str proto_rel h = rw h

add_block-placed :
    (a l b block : Bytes)
    → Lacks b'\n' l
    → add_block (a ++ (bytes "remote_grpc:" ++ (l ++ (b'\n' ∷ b)))) (length a) block
      ≡ a ++ (bytes "remote_grpc:" ++ (l ++ (b'\n' ∷ (block ++ b))))
unfolding add_block bytes
add_block-placed a l b block h =
    let r = bytes "remote_grpc:" ++ l in
    let str = a ++ (r ++ (b'\n' ∷ b)) in
    let all = (a ++ r) ++ b'\n' ∷ [] in
    let r_Lacks : Lacks b'\n' r =
      All-append (λ c. c ≢ b'\n') (bytes "remote_grpc:") l (omega arith) h in
    let place : index (drop (length a) str) (b'\n' ∷ []) ≡ some (length r) =
      ap (λ u. index u (b'\n' ∷ [])) (drop-length a (r ++ (b'\n' ∷ b)))
      ∙ index-Lacks r b b'\n' r_Lacks in
    let flat : str ≡ all ++ b = simp append_assoc in
    let n : length a + length r + 1 ≡ length all =
      omega (arith, length-append a r, length-append (a ++ r) (b'\n' ∷ [])) in
    let inserted : insert_at (length a + length r + 1) block str ≡ all ++ (block ++ b) =
      ap₂ (λ i u. insert_at i block u) n flat
      ∙ unfold insert_at in
        ap₂ (λ x y. x ++ (block ++ y)) (take-length all b) (drop-length all b) in
    rw (add_block, place) (inserted ∙ simp append_assoc)

inject_config_entry_again :
    (str proto_rel new : Bytes)
    → inject_config_entry str proto_rel ≡ write new
    → Occurs new (config_entry (base_name proto_rel)) × (inject_config_entry new proto_rel ≡ keep)
inject_config_entry_again str proto_rel new h =
    let named = written str proto_rel new h in
    (named, known new proto_rel ((contains_iff _ _).1 named))

placed :
    (a l b proto_rel : Bytes)
    → index (a ++ (bytes "remote_grpc:" ++ (l ++ (b'\n' ∷ b)))) (bytes "remote_grpc:")
      ≡ some (length a)
    → Lacks b'\n' l
    → contains
        (a ++ (bytes "remote_grpc:" ++ (l ++ (b'\n' ∷ b))))
        (config_entry (base_name proto_rel))
      ≡ false
    → inject_config_entry (a ++ (bytes "remote_grpc:" ++ (l ++ (b'\n' ∷ b)))) proto_rel
      ≡ write (
          a ++ (bytes "remote_grpc:" ++ (l ++ (b'\n' ∷ (config_block (base_name proto_rel) ++ b)))))
unfolding inject_config_entry
placed a l b proto_rel first line absent =
    rw absent
      (rw first (ap write (add_block-placed a l b (config_block (base_name proto_rel)) line)))

-- If there is no entry of the service yet, and a line holds the first "remote_grpc:", the block with
-- the entry becomes the lines behind it, all else stays, and a second run changes nothing.
pub inject_config_entry_placed :
    (a l b proto_rel : Bytes)
    → index (a ++ (bytes "remote_grpc:" ++ (l ++ (b'\n' ∷ b)))) (bytes "remote_grpc:")
      ≡ some (length a)
    → Lacks b'\n' l
    → contains
        (a ++ (bytes "remote_grpc:" ++ (l ++ (b'\n' ∷ b))))
        (config_entry (base_name proto_rel))
      ≡ false
    → let new =
        a ++ (bytes "remote_grpc:" ++ (l ++ (b'\n' ∷ (config_block (base_name proto_rel) ++ b)))) in
      (inject_config_entry (a ++ (bytes "remote_grpc:" ++ (l ++ (b'\n' ∷ b)))) proto_rel
        ≡ write new)
      × (inject_config_entry new proto_rel ≡ keep)
inject_config_entry_placed a l b proto_rel first line absent =
    let e = placed a l b proto_rel first line absent in
    (e, (inject_config_entry_again _ proto_rel _ e).1)
