-- ===== src/Tests/Running.antt =====
-- The finalizer of the running source.
use eventing_gitlab.Base.{none, some}
use eventing_gitlab.Runtime.Finalizers.Sending.{
  Cleared, clear_finalizer-Cleared, Marked, set_finalizer_if_finalizer-Marked,
}
use eventing_gitlab.Tests.Cluster.{source_with, running}
use eventing_gitlab.Tests.Instance.{library, leader}

clear_finalizer-Cleared_example : Cleared library leader (source_with (some 3)) none running
clear_finalizer-Cleared_example =
    clear_finalizer-Cleared library leader (source_with (some 3)) none running

set_finalizer_if_finalizer-Marked_example : Marked library leader (source_with (some 3)) running
set_finalizer_if_finalizer-Marked_example =
    set_finalizer_if_finalizer-Marked library leader (source_with (some 3)) running
