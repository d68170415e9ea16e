-- ===== src/Tests/Histories.antt =====
-- The theorem on the history, at the data of Tests/Data.antt.
use remote_workspace.Prelude.{some}
use remote_workspace.Server.Store.Records.{history}
use remote_workspace.Server.Store.Records.History.{IsEnd, shown, history-IsEnd}
use remote_workspace.Tests.Data.{store}

history-IsEnd_example : IsEnd 1 (history store (some 1)) (shown store.records)
history-IsEnd_example = history-IsEnd store 1
