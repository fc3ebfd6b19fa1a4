-- ===== src/Dns/Tests.antt =====
-- Tests of unpack_dns.c.
use open_smtpd.Base.{ℕ, ◌<◌, ◌≡◌, refl, none, some, List, [], ◌∷◌, ◌++◌, arith, length, All}
use open_smtpd.Dns.{outside, returns, dname_expand}
use open_smtpd.Dns.Records.{unpack_query, print_dname}
use open_smtpd.Dns.Reads.{take}
use open_smtpd.Dns.Names.{IsLabel, dname_expand-wire}
use open_smtpd.Dns.Expand.{Ends, OrFails, Named, dname_expand-Ends}
use open_smtpd.Dns.Printing.{print_dname-Ends, print_dname-dotted}
use open_smtpd.Dns.Outside.{dname_expand-behind, cut, unpack_query-behind}

abbrev pub example_labels : List (List ℕ)
example_labels = (97 ∷ 98 ∷ []) ∷ (99 ∷ []) ∷ []

-- A name at 2, and at 8 a label and a pointer to 5.
abbrev pub example_packet : List ℕ
example_packet = 7 ∷ 7 ∷ 2 ∷ 97 ∷ 98 ∷ 1 ∷ 99 ∷ 0 ∷ 1 ∷ 100 ∷ 192 ∷ 5 ∷ []

dname_expand-example :
    dname_expand example_packet 12 8 255
    ≡ returns (some (record { res = 5; newoffset = 12; dst = 1 ∷ 100 ∷ 1 ∷ 99 ∷ 0 ∷ [] }))
unfolding dname_expand
dname_expand-example = refl

-- A pointer to itself.
dname_expand-loop_example : dname_expand (192 ∷ 0 ∷ []) 2 0 255 ≡ returns none
unfolding dname_expand
dname_expand-loop_example = refl

print_dname-cut_example :
    print_dname (2 ∷ 97 ∷ 98 ∷ 1 ∷ 99 ∷ 0 ∷ []) 4 ≡ returns (97 ∷ 98 ∷ b'.' ∷ [])
unfolding print_dname
print_dname-cut_example = refl

dname_expand-Ends_example :
    Ends (OrFails (Named 8 12 255)) (dname_expand (example_packet ++ 0 ∷ []) 12 8 255)
dname_expand-Ends_example = dname_expand-Ends (example_packet ++ 0 ∷ []) 12 8 255 (omega arith)

are_labels : All IsLabel example_labels
are_labels = ((omega arith, omega arith), ((omega arith, omega arith), tt))

dname_expand-wire_example :
    dname_expand (7 ∷ 7 ∷ 2 ∷ 97 ∷ 98 ∷ 1 ∷ 99 ∷ 0 ∷ 5 ∷ []) 9 2 4
    ≡ returns (some (record { res = 6; newoffset = 8; dst = 2 ∷ 97 ∷ 98 ∷ 1 ∷ [] }))
unfolding take
dname_expand-wire_example =
    dname_expand-wire example_labels (7 ∷ 7 ∷ []) (5 ∷ []) 9 4 are_labels (omega arith)

print_dname-Ends_example :
    Ends (λ text. length text < 3) (print_dname (2 ∷ 97 ∷ 98 ∷ 1 ∷ 99 ∷ 0 ∷ 5 ∷ []) 3)
print_dname-Ends_example =
    print_dname-Ends (97 ∷ 98 ∷ []) ((99 ∷ []) ∷ []) (5 ∷ []) 3 (are_labels.0) (are_labels.1)
      (omega arith) (omega arith)

print_dname-dotted_example :
    print_dname (2 ∷ 97 ∷ 98 ∷ 1 ∷ 99 ∷ 0 ∷ 5 ∷ []) 9 ≡ returns (97 ∷ 98 ∷ b'.' ∷ 99 ∷ b'.' ∷ [])
print_dname-dotted_example =
    print_dname-dotted (97 ∷ 98 ∷ []) ((99 ∷ []) ∷ []) (5 ∷ []) 9 (are_labels.0) (are_labels.1)
      (omega arith) (omega arith)

dname_expand-behind_example : dname_expand (7 ∷ 2 ∷ 97 ∷ 98 ∷ []) 4 1 255 ≡ outside
dname_expand-behind_example = dname_expand-behind (7 ∷ []) (97 ∷ 98 ∷ []) 255 (are_labels.0)

unpack_query-behind_example : unpack_query (cut (7 ∷ []) (97 ∷ 98 ∷ [])) ≡ outside
unpack_query-behind_example =
    unpack_query-behind (7 ∷ []) (97 ∷ 98 ∷ []) (are_labels.0) (omega arith)
