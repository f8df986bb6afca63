-- ===== src/Policy/Tests.antt =====
-- Instances of the theorems about the gates.
use nodel_mcp.Base.{[], codes}
use nodel_mcp.Files.{World}
use nodel_mcp.Approvals.{ApprovalDetails}

abbrev request : ApprovalDetails
request = record { operation = codes "set_params"; target = codes "Lobby"; proposal_hash = [] }

abbrev empty : World
empty = record { disk = []; faults = []; clock = 0; uuids = [] }
