-- ===== src/Disk/Tests.antt =====
-- lustre/disk.cpp: the theorems at concrete disks.
use lustre_simulator.Base.{ℕ, ◌≡◌, refl, true, false, none, [], ◌∷◌, arith}
use lustre_simulator.Base.Run.{Run, ok, Ends}
use lustre_simulator.Base.Words.{u64, sub_u64}
use lustre_simulator.Elevator.{
  writes, Ioreq, Request, is_empty, enqueue, elv_merge, merge_with_hashed, elv_rqhash_find,
  merge_or_add, ll_merge_fn, add_request, elv_rqhash_add, elv_rqhash_del, get_pending_num,
}
use lustre_simulator.Elevator.Dispatch.{
  dequeue, elv_next_request, dispatch_one, elv_dispatch_sort, take_request, put_request,
}
use lustre_simulator.Disk.{
  idle_state, DiskParams, Disk, Env, is_running, submit_ioreq, plug, mod_timer, disk_unplug_work,
  unplug, remove_plug, request, submit_rq, run_after, process, disk_state_machine, work,
  request_ticks, req_finished, end_request, end_ioreqs, new_elevator, new_disk,
}
use lustre_simulator.Disk.Unplug.{IsSubmitted, IsDrained, unplug_lem}
use lustre_simulator.Disk.Awake.{IsDisk, submit_ioreq-IsDisk}
use lustre_simulator.Disk.Process.{IsRun, process-IsRun}
use lustre_simulator.Disk.Reach.{
  Step, submits, unplugs, runs, Reach, here, next, Reach-IsDisk, new_disk-IsDisk, asleep_lem,
}

abbrev params : DiskParams
params = record {
  latency = 2;
  seek_ticks = 9;
  time_unit = 1;
  read_bandwidth = 1;
  write_bandwidth = 2;
}

abbrev at_time : ℕ → Env
at_time now = record { now = now; switch_ticks = 1; latency_random = 0; seek_random = 0 }

abbrev one_write : Ioreq
one_write = record { cmd = writes; off = 8; count = 4 }

abbrev memory : ℕ → Request
memory r = record { cmd = writes; off = 0; count = 0; stops = false; batch = [] }

-- A new disk, with the I/O request 10 in its elevator, without the plug, with the request in
-- progress, and with the request served.
abbrev fresh : Disk
fresh = new_disk 5 (new_elevator memory 100 3)

abbrev value : Run Disk → Disk
value (ok d) = d
value _ = fresh

abbrev plugged : Disk
plugged = value (submit_ioreq (at_time 1) 10 one_write 7 fresh)

abbrev woken_disk : Disk
woken_disk = value (disk_unplug_work (at_time 6) plugged)

abbrev busy : Disk
busy = value (process params (at_time 7) woken_disk)

abbrev finished : Disk
finished = value (process params (at_time 18) busy)

submits_step : Step fresh plugged
unfolding new_disk new_elevator submit_ioreq enqueue elv_merge merge_with_hashed elv_rqhash_find
    merge_or_add ll_merge_fn add_request elv_rqhash_add get_pending_num plug mod_timer u64 sub_u64
submits_step = submits (at_time 1) 10 one_write 7 refl refl refl refl (omega arith) refl refl

unplugs_step : Step plugged woken_disk
unfolding new_disk new_elevator submit_ioreq enqueue elv_merge merge_with_hashed elv_rqhash_find
    merge_or_add ll_merge_fn add_request elv_rqhash_add get_pending_num plug mod_timer u64 sub_u64
    disk_unplug_work unplug remove_plug request submit_rq run_after dequeue elv_next_request
    dispatch_one elv_dispatch_sort elv_rqhash_del take_request
unplugs_step = unplugs (at_time 6) refl refl

works_step : Step woken_disk busy
unfolding new_disk new_elevator submit_ioreq enqueue elv_merge merge_with_hashed elv_rqhash_find
    merge_or_add ll_merge_fn add_request elv_rqhash_add get_pending_num plug mod_timer u64 sub_u64
    disk_unplug_work unplug remove_plug request submit_rq run_after dequeue elv_next_request
    dispatch_one elv_dispatch_sort elv_rqhash_del take_request process disk_state_machine work
    request_ticks req_finished end_request end_ioreqs put_request
works_step = runs params (at_time 7) (refl, refl) refl refl

finishes_step : Step busy finished
unfolding new_disk new_elevator submit_ioreq enqueue elv_merge merge_with_hashed elv_rqhash_find
    merge_or_add ll_merge_fn add_request elv_rqhash_add get_pending_num plug mod_timer u64 sub_u64
    disk_unplug_work unplug remove_plug request submit_rq run_after dequeue elv_next_request
    dispatch_one elv_dispatch_sort elv_rqhash_del take_request process disk_state_machine work
    request_ticks req_finished end_request end_ioreqs put_request
finishes_step = runs params (at_time 18) (refl, refl) refl refl

served : finished.completed ≡ 10 ∷ []
unfolding new_disk new_elevator submit_ioreq enqueue elv_merge merge_with_hashed elv_rqhash_find
    merge_or_add ll_merge_fn add_request elv_rqhash_add get_pending_num plug mod_timer u64 sub_u64
    disk_unplug_work unplug remove_plug request submit_rq run_after dequeue elv_next_request
    dispatch_one elv_dispatch_sort elv_rqhash_del take_request process disk_state_machine work
    request_ticks req_finished end_request end_ioreqs put_request
served = refl

finished_reached : Reach fresh finished
finished_reached = next (next (next (next here submits_step) unplugs_step) works_step) finishes_step

asleep_lem_example :
    (is_empty finished.elevator ≡ true) × (finished.ready ≡ []) × (finished.state ≡ idle_state)
unfolding new_disk new_elevator submit_ioreq enqueue elv_merge merge_with_hashed elv_rqhash_find
    merge_or_add ll_merge_fn add_request elv_rqhash_add get_pending_num plug mod_timer u64 sub_u64
    disk_unplug_work unplug remove_plug request submit_rq run_after dequeue elv_next_request
    dispatch_one elv_dispatch_sort elv_rqhash_del take_request process disk_state_machine work
    request_ticks req_finished end_request end_ioreqs put_request
asleep_lem_example = asleep_lem memory 100 3 5 finished finished_reached refl refl

fresh-IsDisk : IsDisk fresh
fresh-IsDisk = new_disk-IsDisk memory 100 3 5

submit_ioreq-IsDisk_example : Ends IsDisk (submit_ioreq (at_time 1) 10 one_write 7 fresh)
submit_ioreq-IsDisk_example =
    submit_ioreq-IsDisk (at_time 1) 10 one_write 7 fresh fresh-IsDisk
      (unfold new_disk new_elevator in refl) (unfold new_disk new_elevator in refl)
      (unfold new_disk in refl) (unfold new_disk in refl)
      (unfold new_disk new_elevator in omega arith) (unfold new_disk u64 in refl)

plugged-IsDisk : IsDisk plugged
plugged-IsDisk = Reach-IsDisk (next here submits_step) fresh-IsDisk

plugged_is : plugged.pluged ≡ true
unfolding new_disk new_elevator submit_ioreq enqueue elv_merge merge_with_hashed elv_rqhash_find
    merge_or_add ll_merge_fn add_request elv_rqhash_add get_pending_num plug mod_timer u64 sub_u64
plugged_is = refl

unplug_lem_example :
    Ends
      (λ d'.
        IsSubmitted (record plugged { pluged = false; timer = none }) plugged.elevator.queue d'
        × IsDrained d'.elevator)
      (unplug (at_time 6) plugged)
unplug_lem_example =
    unplug_lem (at_time 6) plugged plugged_is plugged-IsDisk.drained plugged-IsDisk.lists
      plugged-IsDisk.awake

busy-IsDisk : IsDisk busy
busy-IsDisk =
    Reach-IsDisk (next (next (next here submits_step) unplugs_step) works_step) fresh-IsDisk

busy_runs : is_running busy.thread ≡ true
unfolding new_disk new_elevator submit_ioreq enqueue elv_merge merge_with_hashed elv_rqhash_find
    merge_or_add ll_merge_fn add_request elv_rqhash_add get_pending_num plug mod_timer u64 sub_u64
    disk_unplug_work unplug remove_plug request submit_rq run_after dequeue elv_next_request
    dispatch_one elv_dispatch_sort elv_rqhash_del take_request process disk_state_machine work
    request_ticks req_finished end_request end_ioreqs put_request
busy_runs = refl

process-IsRun_example : Ends (IsRun busy) (process params (at_time 18) busy)
process-IsRun_example = process-IsRun params (at_time 18) busy (refl, refl) busy-IsDisk busy_runs
