-- ===== src/Mm/Sla/Tests.antt =====
-- An assignment that needs two new pages.
use boron.Mm.Sla.{initialize_sla, look_up, assign}
use boron.Mm.Sla.Assign.{IsSla}
use boron.Mm.Sla.Map.{Assigns, assign-Assigns, initialize_sla-IsSla}

assign-Assigns_example :
    IsSla (assign initialize_sla 1000 7 9).sla
    × Assigns 1000 7 9
        (look_up initialize_sla)
        (assign initialize_sla 1000 7 9).entry
        (assign initialize_sla 1000 7 9).free
        (look_up (assign initialize_sla 1000 7 9).sla)
assign-Assigns_example = assign-Assigns initialize_sla 1000 7 9 initialize_sla-IsSla.0
