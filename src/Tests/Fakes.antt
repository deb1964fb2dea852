-- ===== src/Tests/Fakes.antt =====
-- A console session, and the fakes.
use firecracker_lab.Prelude.{codes, [], ◌∷◌}
use firecracker_lab.World.{Json}
use firecracker_lab.Runner.Session.{copied}
use firecracker_lab.Runner.Session.Chunks.{concat, Detaches, copied-Detaches}
use firecracker_lab.Vmtest.{RecordedRequest}

abbrev machine : RecordedRequest
machine = record {
  method = codes "PUT";
  path = codes "/machine-config";
  body = Json.str (codes "x");
}

copied-Detaches_example :
    Detaches
      (concat (codes "ls" ∷ (0x1d ∷ codes "x") ∷ []))
      (copied (codes "ls" ∷ (0x1d ∷ codes "x") ∷ []))
copied-Detaches_example = copied-Detaches (codes "ls" ∷ (0x1d ∷ codes "x") ∷ [])
