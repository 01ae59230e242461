-- ===== src/Mm/Pmm/Tests.antt =====
-- A database whose pages have all been in use: page 7 has a prototype page table entry and was
-- modified, page 8 has one and was not.
use boron.Prelude.{ℕ, ◌≡◌, refl, arith, false, ◌||◌, some, inl, List, [], ◌==◌, if◌then◌else◌}
use boron.Mm.Pmm.{
  Pfdb, PageList, free_list, zero_list, standby_list, modified_list, pfn_invalid, pf_type_used,
  release_page, free_physical_page, page_add_reference, get_reference_count, take_first_free_pfn,
  set_modified_pfn, add_pfn_to_list,
}
use boron.Mm.Pmm.Chain.{nothing}
use boron.Mm.Pmm.Lists.{IsPfdb, set_list}
use boron.Mm.Pmm.Free.{Freed, put, release_page-IsPfdb, free_physical_page-Freed}
use boron.Mm.Pmm.Reference.{from_standby, page_add_reference-Recovers}
use boron.Mm.Pmm.Cache.{cached, free_cached-Kept}
use boron.Mm.Pmm.ZeroOut.{zero_out_first_pfn-Moves}

-- All pages have the given number of references.
abbrev database : ℕ → Pfdb
database n = record {
  frame = λ p. record {
    page_type = pf_type_used;
    modified = p == 7;
    is_in_modified_page_list = false;
    is_file_cache = false;
    next_frame = 0;
    prev_frame = 0;
    ref_count = n;
    prototype_pte = if p == 7 || p == 8 then 64 else 0;
    offset_lower = 0;
    offset_upper = 0;
  };
  ends = λ k. record { first = pfn_invalid; last = pfn_invalid };
  total_free_pages = 0;
  reclaimed = [];
}

abbrev no_pages : PageList → List ℕ
no_pages k = []

database-IsPfdb : (n : ℕ) → IsPfdb (database n) no_pages 0
database-IsPfdb n = record {
  lists = record {
    chain = λ k. record { linked = nothing _ _; first = refl; last = refl };
    once = λ k z. omega arith;
    typed = λ k z h. elim h [ ];
    idle = λ k z h. elim h [ ];
    flagged = λ z h. elim h [ ];
  };
  counted = refl;
}

-- Page 5 is free; page 7 is modified; page 8 stands by.
abbrev free_five : Pfdb
free_five = release_page (database 0) 5

abbrev modified_seven : Pfdb
modified_seven = release_page (database 0) 7

abbrev standby_eight : Pfdb
standby_eight = release_page (database 0) 8

free_five-IsPfdb : IsPfdb free_five (put no_pages free_list 5) 0
free_five-IsPfdb =
    release_page-IsPfdb (database 0) no_pages 0 5 (database-IsPfdb 0) (λ k. refl) (omega arith) refl
      (inl refl)

standby_eight-IsPfdb : IsPfdb standby_eight (put no_pages standby_list 8) 0
standby_eight-IsPfdb =
    release_page-IsPfdb (database 0) no_pages 0 8 (database-IsPfdb 0) (λ k. refl) (omega arith) refl
      (inl refl)

free_physical_page-Freed_example :
    (s' : Pfdb) × (free_physical_page (database 1) 7 ≡ some s') × Freed (database 1) no_pages 0 7 s'
free_physical_page-Freed_example =
    free_physical_page-Freed (database 1) no_pages 0 7 (database-IsPfdb 1) (omega arith)
      (omega arith) (inl refl)

page_add_reference-Recovers_example :
    (s' : Pfdb) × (page_add_reference standby_eight 8 ≡ some s')
    × (get_reference_count s' 8 ≡ 1)
    × (s'.total_free_pages ≡ standby_eight.total_free_pages)
    × IsPfdb s' (set_list (put no_pages standby_list 8) standby_list []) 1
page_add_reference-Recovers_example =
    page_add_reference-Recovers standby_eight (put no_pages standby_list 8) 0 standby_list [] 8 []
      standby_eight-IsPfdb from_standby refl (omega arith)

zero_out_first_pfn-Moves_example :
    (s' : Pfdb) × (take_first_free_pfn free_five ≡ some (s', some 5))
    × IsPfdb
        (add_pfn_to_list s' zero_list 5)
        (put (set_list (put no_pages free_list 5) free_list []) zero_list 5)
        0
zero_out_first_pfn-Moves_example =
    zero_out_first_pfn-Moves free_five (put no_pages free_list 5) 0 5 [] free_five-IsPfdb refl

free_cached-Kept_example :
    ((s' : Pfdb) × (free_physical_page (cached (database 1) 5 64 8192) 5 ≡ some s')
      × IsPfdb s' (put no_pages standby_list 5) 0)
    × ((s1 : Pfdb) × (s2 : Pfdb) × (set_modified_pfn (cached (database 1) 5 64 8192) 5 ≡ some s1)
        × (free_physical_page s1 5 ≡ some s2)
        × IsPfdb s2 (put no_pages modified_list 5) 0)
free_cached-Kept_example =
    free_cached-Kept (database 1) no_pages 0 5 64 8192 (database-IsPfdb 1) (omega arith) refl refl
      (omega arith)
